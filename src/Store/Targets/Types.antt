-- ===== src/Store/Targets/Types.antt =====
-- What is stored of the types of a target: each once, whatever the form repeats.
use mathlib.Core.List.{append-nil, append_assoc}
use cqu_netprobe_gateway.Prelude.{
  String, Bool, true, false, ◌||◌, Option, some, List, [], ◌∷◌, ◌++◌, ◌≡◌, ◌≢◌, refl, sym, ap, ◌∙◌,
  inl, inr, arith, Bool-cases, ◌==◌, eq_iff, eq_refl, if◌then◌else◌,
}
use cqu_netprobe_gateway.Store.Table.{is_member, append, select, delete}
use cqu_netprobe_gateway.Store.Targets.{TypeRow, type_target, types_of, insert_probe_types}

-- The types of a form without those met before.
pub unseen : List String → List String → List String
unseen seen [] = []
unseen seen (pt ∷ types) =
    let skip = unseen seen types in
    let go_on = pt ∷ unseen (pt ∷ seen) types in if is_member pt seen then skip else go_on

abbrev pub pair_with : String → List String → List TypeRow
pair_with id [] = []
pair_with id (pt ∷ types) = (id, pt) ∷ pair_with id types

pub is_member-append :
    (s pt : String) (xs : List String) → is_member s (xs ++ pt ∷ []) ≡ (is_member s xs || (pt == s))
unfolding is_member
is_member-append s pt [] = ground arith
is_member-append s pt (x ∷ xs) = ground (arith, is_member-append s pt xs)

pub types_of-append :
    (id : String) (rows : List TypeRow) (pt : String)
    → types_of id (append rows (id, pt)) ≡ types_of id rows ++ pt ∷ []
unfolding select
types_of-append id [] pt = rw (eq_refl id) refl
types_of-append id (r ∷ rows) pt = elim (Bool-cases (r.0 == id)) [
  | inl e ↦ rw (e, select) (ap (λ l. r.1 ∷ l) (types_of-append id rows pt))
  | inr e ↦ rw (e, select) (types_of-append id rows pt)
]

pub types_of-append_other :
    (id other : String) (rows : List TypeRow) (pt : String)
    → id ≢ other
    → types_of other (append rows (id, pt)) ≡ types_of other rows
unfolding select
types_of-append_other id other [] pt ne = ground (arith, eq_iff id other, ne)
types_of-append_other id other (r ∷ rows) pt ne = elim (Bool-cases (r.0 == other)) [
  | inl e ↦ rw (e, select) (ap (λ l. r.1 ∷ l) (types_of-append_other id other rows pt ne))
  | inr e ↦ rw (e, select) (types_of-append_other id other rows pt ne)
]

pub types_of-delete :
    (id : String) (rows : List TypeRow) → types_of id (delete type_target id rows) ≡ []
unfolding select delete
types_of-delete id [] = refl
types_of-delete id (r ∷ rows) = elim (Bool-cases (r.0 == id)) [
  | inl e ↦ rw (e, delete) (types_of-delete id rows)
  | inr e ↦ rw (e, delete) (rw (e, select) (types_of-delete id rows))
]

pub types_of-delete_other :
    (id other : String) (rows : List TypeRow)
    → id ≢ other
    → types_of other (delete type_target id rows) ≡ types_of other rows
unfolding select delete
types_of-delete_other id other [] ne = refl
types_of-delete_other id other (r ∷ rows) ne =
    let rest = types_of-delete_other id other rows ne in
    elim (Bool-cases (r.0 == id)) [
      | inl e ↦
          let apart : (r.0 == other) ≡ false = ground (arith, eq_iff r.0 id, eq_iff r.0 other, e) in
          rw (e, delete) (rw (apart, select) rest)
      | inr e ↦ elim (Bool-cases (r.0 == other)) [
        | inl g ↦ rw (e, delete) (rw (g, select) (ap (λ l. r.1 ∷ l) rest))
        | inr g ↦ rw (e, delete) (rw (g, select) rest)
      ]
    ]

pub not_member : (s : String) → true ≡ is_member s [] → ⊥
unfolding is_member
not_member s h = cc

-- What an insertion of the types of `id` leaves.
pub record Inserted (id : String) (types : List String) (rows : List TypeRow)
    (done : Option (List TypeRow)) : Type 0 where
  pub after : List TypeRow
  pub succeeds : done ≡ some after
  pub stored : types_of id after ≡ types_of id rows ++ types
  pub others : (other : String) → id ≢ other → types_of other after ≡ types_of other rows

is_member-grown :
    (id s pt : String) (seen : List String) (rows : List TypeRow)
    → is_member s (types_of id (append rows (id, pt))) ≡ true
    → (is_member s (types_of id rows) ≡ true → is_member s seen ≡ true)
    → is_member s (pt ∷ seen) ≡ true
unfolding is_member
is_member-grown id s pt seen rows h known =
    let both =
      sym (is_member-append s pt (types_of id rows))
      ∙ ap (is_member s) (sym (types_of-append id rows pt))
      ∙ h in
    elim (Bool-cases (is_member s (types_of id rows))) [
      | inl e ↦ ground (arith, known e)
      | inr e ↦ ground (arith, both, e)
    ]

-- With a driver that answers, the loop stores each type that it has not met.
pub insert_probe_types-Inserted :
    (fails : String → Bool) (id : String) (seen types : List String) (rows : List TypeRow)
    → ((pt : String) → fails pt ≡ false)
    → ((s : String) → is_member s (types_of id rows) ≡ true → is_member s seen ≡ true)
    → Inserted id (unseen seen types) rows (insert_probe_types fails id seen types rows)
unfolding insert_probe_types unseen
insert_probe_types-Inserted fails id seen [] rows healthy known = record {
  after = rows;
  succeeds = refl;
  stored = sym (append-nil (types_of id rows));
  others = λ other ne. refl;
}
insert_probe_types-Inserted fails id seen (pt ∷ types) rows healthy known =
    elim (Bool-cases (is_member pt seen)) [
      | inl e ↦ rw e (insert_probe_types-Inserted fails id seen types rows healthy known)
      | inr e ↦
          let next =
            insert_probe_types-Inserted fails id (pt ∷ seen) types (append rows (id, pt)) healthy
              known' in
          rw (e, healthy pt, free e)
            (record {
              after = next.after;
              succeeds = next.succeeds;
              stored =
                  next.stored
                  ∙ ap (λ l. l ++ unseen (pt ∷ seen) types) (types_of-append id rows pt)
                  ∙ append_assoc (types_of id rows) (pt ∷ []) (unseen (pt ∷ seen) types);
              others = λ other ne. next.others other ne ∙ types_of-append_other id other rows pt ne;
            })
    ]
  where
    free : is_member pt seen ≡ false → is_member pt (types_of id rows) ≡ false
    free e = ground (arith, known pt, e)

    known' :
        (s : String)
        → is_member s (types_of id (append rows (id, pt))) ≡ true
        → is_member s (pt ∷ seen) ≡ true
    known' s h = is_member-grown id s pt seen rows h (known s)
