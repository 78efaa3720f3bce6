-- ===== src/Cron/Whole.antt =====
-- cron/cron.go: an expression that `Parse` accepts.
use jobx.Prelude.{zero, suc, ◌≡◌, List, [], ◌∷◌, arith}
use jobx.Text.{Text}
use jobx.Cron.Strings.{fields}
use jobx.Cron.{Field, Expr, parse_rest, parse_listed, parse, second_zero, parse_field, parsed}
use jobx.Cron.Ranges.{IsInRange, parse_field-IsInRange, bind_parsed, bit-no_bits}

-- Every field of the expression stays within the bounds that the calendar gives it.
pub record IsSound (e : Expr) : Type 0 where
  pub sec : IsInRange 0 59 e.sec.set
  pub min : IsInRange 0 59 e.min.set
  pub hour : IsInRange 0 23 e.hour.set
  pub dom : IsInRange 1 31 e.dom.set
  pub month : IsInRange 1 12 e.month.set
  pub dow : IsInRange 0 6 e.dow.set

parse_rest-IsSound :
    (raw : Text) (sec : Field) (parts : List Text) (e : Expr)
    → IsInRange 0 59 sec.set
    → parse_rest raw sec parts ≡ parsed e
    → IsSound e
unfolding parse_rest
parse_rest-IsSound raw sec [] e r h = absurd (ground arith)
parse_rest-IsSound raw sec (a ∷ []) e r h = absurd (ground arith)
parse_rest-IsSound raw sec (a ∷ b ∷ []) e r h = absurd (ground arith)
parse_rest-IsSound raw sec (a ∷ b ∷ c ∷ []) e r h = absurd (ground arith)
parse_rest-IsSound raw sec (a ∷ b ∷ c ∷ d ∷ []) e r h = absurd (ground arith)
parse_rest-IsSound raw sec (a ∷ b ∷ c ∷ d ∷ x ∷ y ∷ l) e r h = absurd (ground arith)
parse_rest-IsSound raw sec (a ∷ b ∷ c ∷ d ∷ x ∷ []) e r h =
    let (min, min_ok, h₁) = bind_parsed (parse_field a 0 59) _ e h in
    let (hour, hour_ok, h₂) = bind_parsed (parse_field b 0 23) _ e h₁ in
    let (dom, dom_ok, h₃) = bind_parsed (parse_field c 1 31) _ e h₂ in
    let (month, month_ok, h₄) = bind_parsed (parse_field d 1 12) _ e h₃ in
    let (dow, dow_ok, h₅) = bind_parsed (parse_field x 0 6) _ e h₄ in
    let same : record {
      raw = raw;
      sec = sec;
      min = min;
      hour = hour;
      dom = dom;
      month = month;
      dow = dow;
    }
        ≡ e =
      ground arith in
    rw (← same) (record {
      sec = r;
      min = parse_field-IsInRange a 0 59 min (omega arith) (omega arith) min_ok;
      hour = parse_field-IsInRange b 0 23 hour (omega arith) (omega arith) hour_ok;
      dom = parse_field-IsInRange c 1 31 dom (omega arith) (omega arith) dom_ok;
      month = parse_field-IsInRange d 1 12 month (omega arith) (omega arith) month_ok;
      dow = parse_field-IsInRange x 0 6 dow (omega arith) (omega arith) dow_ok;
    })

second_zero-IsInRange : IsInRange 0 59 second_zero.set
second_zero-IsInRange zero on = (omega arith, omega arith)
second_zero-IsInRange (suc j) on = absurd (ground (arith, bit-no_bits 59 j))

parse_listed-IsSound :
    (raw : Text) (parts : List Text) (e : Expr) → parse_listed raw parts ≡ parsed e → IsSound e
unfolding parse_listed
parse_listed-IsSound raw [] e h = parse_rest-IsSound raw second_zero [] e second_zero-IsInRange h
parse_listed-IsSound raw (a ∷ []) e h =
    parse_rest-IsSound raw second_zero (a ∷ []) e second_zero-IsInRange h
parse_listed-IsSound raw (a ∷ b ∷ []) e h =
    parse_rest-IsSound raw second_zero (a ∷ b ∷ []) e second_zero-IsInRange h
parse_listed-IsSound raw (a ∷ b ∷ c ∷ []) e h =
    parse_rest-IsSound raw second_zero (a ∷ b ∷ c ∷ []) e second_zero-IsInRange h
parse_listed-IsSound raw (a ∷ b ∷ c ∷ d ∷ []) e h =
    parse_rest-IsSound raw second_zero (a ∷ b ∷ c ∷ d ∷ []) e second_zero-IsInRange h
parse_listed-IsSound raw (a ∷ b ∷ c ∷ d ∷ x ∷ []) e h =
    parse_rest-IsSound raw second_zero (a ∷ b ∷ c ∷ d ∷ x ∷ []) e second_zero-IsInRange h
parse_listed-IsSound raw (a ∷ b ∷ c ∷ d ∷ x ∷ y ∷ z ∷ l) e h =
    parse_rest-IsSound raw second_zero (a ∷ b ∷ c ∷ d ∷ x ∷ y ∷ z ∷ l) e second_zero-IsInRange h
parse_listed-IsSound raw (a ∷ b ∷ c ∷ d ∷ x ∷ y ∷ []) e h =
    let (sec, sec_ok, h₁) = bind_parsed (parse_field a 0 59) _ e h in
    parse_rest-IsSound raw sec (b ∷ c ∷ d ∷ x ∷ y ∷ []) e
      (parse_field-IsInRange a 0 59 sec (omega arith) (omega arith) sec_ok) h₁

-- In an expression that `Parse` accepts the seconds and minutes are from 0 to 59, the hours from 0
-- to 23, the days of the month from 1 to 31, the months from 1 to 12 and the days of the week from
-- 0 to 6.
pub parse-IsSound : (expr : Text) (e : Expr) → parse expr ≡ parsed e → IsSound e
unfolding parse
parse-IsSound expr e h = parse_listed-IsSound expr (fields expr) e h
