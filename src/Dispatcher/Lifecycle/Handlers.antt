-- ===== src/Dispatcher/Lifecycle/Handlers.antt =====
-- internal/core/dispatcher.go: the registration of handlers.
use jobx.Prelude.{◌≡◌, refl, sym, ap, ◌∙◌, Option, none, some, arith, ite, Option-cases, inl, inr}
use jobx.Prelude.Maps.{lookup, insert, lookup-insert}
use jobx.Text.{Text, text_discrete}
use jobx.Errors.{Error, err_handler_conflict}
use jobx.Dispatcher.State.{Dispatcher, Handler, returns, fails}
use jobx.Dispatcher.Steps.{validate_name}
use jobx.Dispatcher.Lifecycle.{store_handler, handle_valid, handle}

-- The two ways of a registration with a handler.
handle-invalid :
    (name : Text) (h : Option Handler) (d : Dispatcher) (e : Error)
    → validate_name d.env name ≡ some e
    → handle name h d ≡ (fails e, d)
unfolding handle
handle-invalid name h d e bad = rw bad refl

handle-valid :
    (name : Text) (h : Option Handler) (d : Dispatcher)
    → validate_name d.env name ≡ none
    → handle name h d ≡ handle_valid h name d
unfolding handle
handle-valid name h d good = rw good refl

-- What a registration that succeeds has found and done.
record Registers (name : Text) (h : Handler) (d d' : Dispatcher) : Type 0 where
  env : d'.env ≡ d.env
  handlers : d'.handlers ≡ insert text_discrete name h d.handlers

store_handler-Registers :
    (o : Option Handler) (name : Text) (h : Handler) (d d' : Dispatcher)
    → store_handler o name h d ≡ (returns tt, d')
    → Registers name h d d'
unfolding store_handler
store_handler-Registers none name h d d' e =
    let same : record d { handlers = insert text_discrete name h d.handlers } ≡ d' =
      ap (λ r. r.1) e in
    rw (← same) (record { env = refl; handlers = refl })
store_handler-Registers (some old) name h d d' e = absurd (ground arith)

store_handler-taken :
    (name : Text) (h old : Handler) (d : Dispatcher)
    → lookup text_discrete name d.handlers ≡ some old
    → store_handler (lookup text_discrete name d.handlers) name h d
      ≡ (fails err_handler_conflict, d)
unfolding store_handler
store_handler-taken name h old d e = rw e refl

-- After a registration that succeeds, the name has its handler, the other names have theirs as before,
-- and any further registration of the name is refused as a conflict and changes nothing.
pub handle-again :
    (name : Text) (h h' : Handler) (d d' : Dispatcher)
    → handle name (some h) d ≡ (returns tt, d')
    → ((n : Text)
        → lookup text_discrete n d'.handlers
          ≡ ite (text_discrete name n) (some h) (lookup text_discrete n d.handlers))
      × (handle name (some h') d' ≡ (fails err_handler_conflict, d'))
unfolding handle_valid
handle-again name h h' d d' e = elim (Option-cases (validate_name d.env name)) [
  | inr (x, bad) ↦ absurd (let p = sym (handle-invalid name (some h) d x bad) ∙ e in ground arith)
  | inl good ↦
      let r =
        store_handler-Registers (lookup text_discrete name d.handlers) name h d d'
          (sym (handle-valid name (some h) d good) ∙ e) in
      let known : (n : Text)
          → lookup text_discrete n d'.handlers
            ≡ ite (text_discrete name n) (some h) (lookup text_discrete n d.handlers) =
        λ n.
          ap (lookup text_discrete n) r.handlers
          ∙ lookup-insert text_discrete n name h d.handlers in
      let good' : validate_name d'.env name ≡ none = ap (λ v. validate_name v name) r.env ∙ good in
      let there : lookup text_discrete name d'.handlers ≡ some h = ground (arith, known name) in
      (known, handle-valid name (some h') d' good' ∙ store_handler-taken name h' h d' there)
]
