-- ===== src/Status/Table.antt =====
-- internal/core/dispatcher.go: what `markStatus` keeps and changes.
use jobx.Prelude.{
  suc, ◌≤◌, ◌<◌, ◌≡◌, ◌≢◌, refl, sym, ap, ◌∙◌, Bool, true, false, List, [], ◌∷◌, ◌++◌, Option, none,
  some, length, ltb, arith, length-append, Bool-cases, Option-cases, inl, inr,
}
use jobx.Prelude.Maps.{
  lookup, insert, delete, lookup-insert, lookup-delete, contains, contains-append,
}
use jobx.Text.{Text, text_discrete}
use jobx.Errors.{ok, err, err_job_not_found}
use jobx.Status.{
  Status, StatusTable, max_status_count, evict_oldest, admit, admit_if_new, mark_status, job_status,
}

abbrev has : Option Status → Bool
has none = false
has (some s) = true

-- No id stands twice.
abbrev pub Distinct : List Text → Type 0
Distinct [] = Unit
Distinct (id ∷ ids) = (contains text_discrete id ids ≡ false) × Distinct ids

-- The order lists each id that has a status, once, and no more than the limit.
pub record IsConsistent (t : StatusTable) : Type 0 where
  pub listed :
      (id : Text) → has (lookup text_discrete id t.statuses) ≡ contains text_discrete id t.order
  pub distinct : Distinct t.order
  pub bounded : length t.order ≤ max_status_count

Distinct-append :
    (ids : List Text) (id : Text)
    → contains text_discrete id ids ≡ false
    → Distinct ids
    → Distinct (ids ++ id ∷ [])
unfolding contains
Distinct-append [] id h d = (ground arith, tt)
Distinct-append (x ∷ ids) id h d = (
  ground (arith, contains-append text_discrete x ids (id ∷ [])),
  Distinct-append ids id (ground arith) d.1,
)

-- All but the entry of `id`, which is about to be written, is in order.
record IsReady (id : Text) (t : StatusTable) : Type 0 where
  listed :
      (j : Text)
      → j ≢ id
      → has (lookup text_discrete j t.statuses) ≡ contains text_discrete j t.order
  present : contains text_discrete id t.order ≡ true
  distinct : Distinct t.order

write-IsConsistent :
    (id : Text) (s : Status) (t : StatusTable)
    → IsReady id t
    → length t.order ≤ max_status_count
    → IsConsistent (record t { statuses = insert text_discrete id s t.statuses })
write-IsConsistent id s t r b = record {
  listed = λ j. elim (text_discrete id j) [
    | yes e ↦ ground (arith, lookup-insert text_discrete j id s t.statuses, r.present)
    | no n ↦
        ground (arith, lookup-insert text_discrete j id s t.statuses, r.listed j (λ e. n (sym e)))
  ];
  distinct = r.distinct;
  bounded = b;
}

evict_oldest-IsReady :
    (id o : Text) (rest : List Text) (t : StatusTable)
    → IsReady id (record t { order = o ∷ rest })
    → o ≢ id
    → IsReady id (evict_oldest (o ∷ rest) t)
unfolding evict_oldest contains
evict_oldest-IsReady id o rest t r ne = record {
  listed =
      λ j n. ground (arith, lookup-delete text_discrete j o t.statuses, r.listed j n, r.distinct.0);
  present = ground (arith, r.present);
  distinct = r.distinct.1;
}

append-IsReady :
    (id : Text) (t : StatusTable)
    → IsConsistent t
    → contains text_discrete id t.order ≡ false
    → IsReady id (record t { order = t.order ++ id ∷ [] })
unfolding contains
append-IsReady id t c new = record {
  listed = λ j n. ground (arith, contains-append text_discrete j t.order (id ∷ []), c.listed j);
  present = ground (arith, contains-append text_discrete id t.order (id ∷ []));
  distinct = Distinct-append t.order id new c.distinct;
}

head-ne :
    (id o : Text) (os rest : List Text)
    → os ++ id ∷ [] ≡ o ∷ rest
    → contains text_discrete id os ≡ false
    → 0 < length os
    → o ≢ id
unfolding contains
head-ne id o [] rest e new pos = absurd (omega arith)
head-ne id o (x ∷ os) rest e new pos = λ same. ground arith

evicted :
    (id : Text) (t : StatusTable) (order : List Text)
    → t.order ++ id ∷ [] ≡ order
    → IsConsistent t
    → contains text_discrete id t.order ≡ false
    → max_status_count < length order
    → IsReady id (evict_oldest order (record t { order = order }))
      × (length (evict_oldest order (record t { order = order })).order ≤ max_status_count)
unfolding evict_oldest
evicted id t [] e c new full = absurd (omega arith)
evicted id t (o ∷ rest) e c new full =
    let size = length-append t.order (id ∷ []) in
    let size' : length (t.order ++ id ∷ []) ≡ suc (length rest) = rw e refl in
    (
      evict_oldest-IsReady id o rest t (rw e at (append-IsReady id t c new))
          (head-ne id o t.order rest e new (omega (arith, size, size'))),
      omega (arith, size, size', c.bounded),
    )

admit-IsReady :
    (id : Text) (t : StatusTable)
    → IsConsistent t
    → contains text_discrete id t.order ≡ false
    → IsReady id (admit id t) × (length (admit id t).order ≤ max_status_count)
unfolding admit
admit-IsReady id t c new = elim (Bool-cases (ltb max_status_count (length (t.order ++ id ∷ [])))) [
  | inl full ↦ rw full (evicted id t _ refl c new (ground arith))
  | inr room ↦ rw room (append-IsReady id t c new, ground arith)
]

-- `markStatus` keeps the table consistent and within its limit of 10000 ids.
pub mark_status-IsConsistent :
    (id : Text) (s : Status) (t : StatusTable) → IsConsistent t → IsConsistent (mark_status id s t)
unfolding mark_status
mark_status-IsConsistent id s t c = elim (Option-cases (lookup text_discrete id t.statuses)) [
  | inl e ↦
      let new : contains text_discrete id t.order ≡ false = ground (arith, c.listed id) in
      let (ready, small) = admit-IsReady id t c new in
      rw (e, mark_status, admit_if_new) (write-IsConsistent id s (admit id t) ready small)
  | inr (old, e) ↦
      rw (e, mark_status, admit_if_new)
        (write-IsConsistent id s t
          (record {
            listed = λ j n. c.listed j;
            present = ground (arith, c.listed id);
            distinct = c.distinct;
          })
          c.bounded)
]

-- Whatever the table holds, the status just marked is the one that `JobStatus` reports.
pub job_status-mark_status :
    (id : Text) (s : Status) (t : StatusTable) → job_status id (mark_status id s t) ≡ ok s
unfolding job_status mark_status
job_status-mark_status id s t = ground (
  arith,
  lookup-insert text_discrete id id s
      (admit_if_new (lookup text_discrete id t.statuses) id t).statuses,
)

admit_room :
    (o : Option Status) (id : Text) (t : StatusTable)
    → length t.order < max_status_count
    → (admit_if_new o id t).statuses ≡ t.statuses
unfolding admit_if_new
admit_room none id t room = ground (arith, length-append t.order (id ∷ []))
admit_room (some s) id t room = refl

-- In a table with room the other ids keep their statuses.
pub job_status-mark_status_other :
    (id j : Text) (s : Status) (t : StatusTable)
    → id ≢ j
    → length t.order < max_status_count
    → job_status j (mark_status id s t) ≡ job_status j t
unfolding job_status mark_status
job_status-mark_status_other id j s t ne room =
    let o = lookup text_discrete id t.statuses in
    ground (
      arith,
      lookup-insert text_discrete j id s (admit_if_new o id t).statuses,
      admit_room o id t room,
    )

head_absent :
    (id oldest : Text) (rest : List Text)
    → contains text_discrete id (oldest ∷ rest) ≡ false
    → id ≢ oldest
unfolding contains
head_absent id oldest rest h same = ground arith

evict-statuses :
    (order rest : List Text) (oldest : Text) (t : StatusTable)
    → order ≡ oldest ∷ rest
    → (evict_oldest order t).statuses ≡ delete text_discrete oldest t.statuses
unfolding evict_oldest
evict-statuses [] rest oldest t e = cc
evict-statuses (x ∷ xs) rest oldest t e = let same : x ≡ oldest = ground arith in rw same

admit_full :
    (id oldest : Text) (rest : List Text) (t : StatusTable)
    → t.order ≡ oldest ∷ rest
    → length t.order ≡ max_status_count
    → (admit id t).statuses ≡ delete text_discrete oldest t.statuses
unfolding admit
admit_full id oldest rest t e full =
    let order = t.order ++ id ∷ [] in
    let over : ltb max_status_count (length order) ≡ true =
      ground (arith, length-append t.order (id ∷ [])) in
    rw over (
      evict-statuses order (rest ++ id ∷ []) oldest (record t { order = order })
        (ap (λ l. l ++ id ∷ []) e))

-- In a full table a new id takes the place of the oldest one, which is forgotten whatever its
-- status was: `JobStatus` no longer knows it.
pub mark_status_forgets :
    (id oldest : Text) (rest : List Text) (s : Status) (t : StatusTable)
    → IsConsistent t
    → t.order ≡ oldest ∷ rest
    → length t.order ≡ max_status_count
    → lookup text_discrete id t.statuses ≡ none
    → job_status oldest (mark_status id s t) ≡ err err_job_not_found
unfolding job_status mark_status
mark_status_forgets id oldest rest s t c e full new =
    let fresh : contains text_discrete id (oldest ∷ rest) ≡ false =
      rw e at (sym (c.listed id) ∙ ap has new) in
    let ne : id ≢ oldest = head_absent id oldest rest fresh in
    rw (new, mark_status, admit_if_new)
      (ground (
        arith,
        admit_full id oldest rest t e full,
        lookup-insert text_discrete oldest id s (admit id t).statuses,
        lookup-delete text_discrete oldest oldest t.statuses,
      ))
