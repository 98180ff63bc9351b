-- ===== src/Portal/Register/Overlap.antt =====
-- Registrations that overlap: each counts the rows before any of them has added its own.
use cqu_netprobe_gateway.Prelude.{
  ℕ, suc, ◌+◌, ◌-◌, ◌≤◌, String, Option, none, some, List, [], ◌∷◌, ◌≡◌, refl, sym, ap, subst, ◌∙◌,
  inl, inr, arith, leb, Bool-cases, length, length-append, All,
}
use cqu_netprobe_gateway.Prelude.Sort.{HasDistinctKeys}
use cqu_netprobe_gateway.RateLimit.{RateLimiter}
use cqu_netprobe_gateway.ClientIp.{NetLibrary}
use cqu_netprobe_gateway.Store.Table.{All-append}
use cqu_netprobe_gateway.Store.Table.Unique.{append-HasDistinctKeys}
use cqu_netprobe_gateway.Store.Probes.{ProbeRow, ProbeTable, probe_id_of, token_hash_of}
use cqu_netprobe_gateway.Store.Probes.Unique.{IsWellFormed}
use cqu_netprobe_gateway.Store.Catalog.{Catalog}
use cqu_netprobe_gateway.Store.Catalog.Consistent.{IsLocated, IsConsistent}
use cqu_netprobe_gateway.Portal.Server.{Portal, Settings, Answer, internal_error}
use cqu_netprobe_gateway.Portal.Register.{
  RegisterCall, Surroundings, passed, cap_message, Accepted, check_form, check_cap,
}
use cqu_netprobe_gateway.Portal.Register.Effects.{
  Post, IsPlaced, check_form-IsPlaced, plain_ne, render_form-ne,
}
use cqu_netprobe_gateway.Portal.Register.Registered.{
  RegisterCase, no_row, one_row, create_with_token-case,
}

-- A registration that has passed the checks of its form and has counted the rows.
pub record Registration : Type 0 where
  pub env : Surroundings
  pub call : RegisterCall
  pub form : Accepted
  pub count : Option ℕ

-- The count failed, or saw all the rows that were there at first.
abbrev pub IsCountFrom : ℕ → Option ℕ → Type 0
IsCountFrom n none = Unit
IsCountFrom n (some count) = n ≤ count

-- The keys are unique, the probes are at buildings of the catalog, and there are at most `n`.
abbrev pub IsKept : ℕ → ProbeTable → Catalog → Type 0
IsKept n t c = IsWellFormed t × IsConsistent t.rows c × (length t.rows ≤ n)

module _ (R : RateLimiter) (L : NetLibrary) (url_host : String → Option String)
    (token_hash : String → String) (cfg : Settings L) where
  -- The registrations go on with the counts they have taken, one after the other.
  unfoldable pub finish_all : Portal R → List Registration → Portal R
  finish_all s [] = s
  finish_all s (x ∷ xs) =
      finish_all (check_cap R L url_host token_hash cfg s x.env x.form x.count).0 xs

  -- The registration passed the form on this catalog, and counted at least `n` rows.
  abbrev pub IsUnderWay : Catalog → ℕ → Registration → Type 0
  IsUnderWay c n x =
      (check_form R L url_host token_hash cfg c x.env x.call ≡ passed x.form)
      × IsCountFrom n x.count

  passed-IsPlaced :
      (c : Catalog) (n : ℕ) (x : Registration)
      → IsUnderWay c n x
      → IsPlaced R L url_host token_hash c x.form
  passed-IsPlaced c n x h =
      subst (Post (IsPlaced R L url_host token_hash c)) h.0
        (check_form-IsPlaced R L url_host token_hash cfg c x.env x.call)

  -- A case of a registration: what it keeps, with one row more at most.
  RegisterCase-IsKept :
      (n max : ℕ) (t : ProbeTable) (c : Catalog) (x : Portal R × Answer)
      → RegisterCase R L url_host token_hash max t c x
      → IsKept n t c
      → IsKept (suc n) x.0.probes c × (x.0.catalog ≡ c)
  RegisterCase-IsKept n max t c x (no_row u answer probes catalog page) (w, k, len) =
      (subst (λ t. IsKept (suc n) t c) (sym probes) (w, k, omega (arith, len)), catalog)
  RegisterCase-IsKept n max t c x (one_row u answer token catalog r shows) (w, k, len) = (
    (
      record {
        ids_distinct =
            subst (HasDistinctKeys probe_id_of) (sym r.rows)
              (append-HasDistinctKeys probe_id_of t.rows r.row r.id_free w.ids_distinct);
        tokens_distinct =
            subst (HasDistinctKeys token_hash_of) (sym r.rows)
              (append-HasDistinctKeys token_hash_of t.rows r.row r.token_free w.tokens_distinct);
      },
      record {
        campus_codes = k.campus_codes;
        building_codes = k.building_codes;
        housed = k.housed;
        located =
            subst (All (IsLocated c)) (sym r.rows)
              (All-append probe_id_of (IsLocated c) t.rows r.row k.located r.located);
      },
      subst (λ (l : List ProbeRow). length l ≤ suc n) (sym r.rows)
          (omega (arith, length-append t.rows (r.row ∷ []), len)),
    ),
    catalog,
  )

  check_cap-count-case :
      (s : Portal R) (env : Surroundings) (a : Accepted) (o : Option ℕ)
      → IsPlaced R L url_host token_hash s.catalog a
      → RegisterCase R L url_host token_hash
          (suc (length s.probes.rows))
          s.probes
          s.catalog
          (check_cap R L url_host token_hash cfg s env a o)
  unfolding check_cap
  check_cap-count-case s env a none placed =
      no_row s internal_error refl refl (plain_ne 500 "internal error")
  check_cap-count-case s env a (some count) placed = elim (Bool-cases (leb cfg.max_probes count)) [
    | inl g ↦ rw g (
        no_row s _ refl refl
          (render_form-ne env.render s.catalog 503 (cap_message cfg.max_probes) a.form.campus_code))
    | inr g ↦ rw g (
        create_with_token-case R L url_host token_hash (suc (length s.probes.rows)) s env a
          env.token placed (omega arith))
  ]

  -- A count at the cap or above it changes nothing.
  check_cap-refused :
      (s : Portal R) (env : Surroundings) (a : Accepted) (n : ℕ) (o : Option ℕ)
      → cfg.max_probes ≤ n
      → IsCountFrom n o
      → (check_cap R L url_host token_hash cfg s env a o).0 ≡ s
  unfolding check_cap
  check_cap-refused s env a n none full from = refl
  check_cap-refused s env a n (some count) full from =
      elim (Bool-cases (leb cfg.max_probes count)) [
        | inl g ↦ rw g refl
        | inr g ↦ absurd (ground (arith, full, from, g))
      ]

  finish_all-refused :
      (s : Portal R) (n : ℕ) (xs : List Registration)
      → cfg.max_probes ≤ n
      → All (IsUnderWay s.catalog n) xs
      → finish_all s xs ≡ s
  unfolding finish_all
  finish_all-refused s n [] full h = refl
  finish_all-refused s n (x ∷ xs) full (h, hs) =
      ap (λ u. finish_all u xs) (check_cap-refused s x.env x.form n x.count full h.1)
      ∙ finish_all-refused s n xs full hs

  finish_all-IsKept :
      (n m : ℕ) (s : Portal R) (xs : List Registration)
      → All (IsUnderWay s.catalog n) xs
      → IsKept m s.probes s.catalog
      → let s' = finish_all s xs in IsKept (m + length xs) s'.probes s'.catalog
  unfolding finish_all
  finish_all-IsKept n m s [] hs (w, k, len) = (w, k, omega (arith, len))
  finish_all-IsKept n m s (x ∷ xs) (h, hs) kept =
      let placed = passed-IsPlaced s.catalog n x h in
      let step =
        RegisterCase-IsKept m (suc (length s.probes.rows)) s.probes s.catalog _
          (check_cap-count-case s x.env x.form x.count placed) kept in
      let u = (check_cap R L url_host token_hash cfg s x.env x.form x.count).0 in
      let (w, k, len) =
        finish_all-IsKept n (suc m) u xs (subst (λ c. All (IsUnderWay c n) xs) (sym step.1) hs)
          (subst (IsKept (suc m) u.probes) (sym step.1) step.0) in
      (w, k, omega (arith, len))

  -- Registrations that overlap, each of which has passed its form and counts the rows before any of
  -- them adds its own, go on in any order. However each is answered, the IDs and the token hashes
  -- stay unique and every probe stays at a building of the catalog. A table within the cap ends at
  -- most one row less than their number above it: a registration that no other one overlaps keeps to
  -- the cap, and two at once can exceed it by one.
  pub finish_all-keeps :
      (s : Portal R) (xs : List Registration)
      → All (IsUnderWay s.catalog (length s.probes.rows)) xs
      → IsKept cfg.max_probes s.probes s.catalog
      → let s' = finish_all s xs in IsKept (cfg.max_probes + (length xs - 1)) s'.probes s'.catalog
  finish_all-keeps s xs hs (w, k, len) =
      elim (Bool-cases (leb cfg.max_probes (length s.probes.rows))) [
        | inl g ↦
            subst (λ (u : Portal R). IsKept (cfg.max_probes + (length xs - 1)) u.probes u.catalog)
              (sym (finish_all-refused s (length s.probes.rows) xs (ground (arith, g)) hs))
              (w, k, omega (arith, len))
        | inr g ↦
            let (w', k', len') =
              finish_all-IsKept (length s.probes.rows) (length s.probes.rows) s xs hs
                (w, k, omega arith) in
            (w', k', ground (arith, g, len'))
      ]
