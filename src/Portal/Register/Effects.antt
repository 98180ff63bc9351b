-- ===== src/Portal/Register/Effects.antt =====
-- What a registration leaves behind, however it is answered.
use cqu_netprobe_gateway.Prelude.{
  ℕ, String, Bool, true, false, not, ◌==◌, Option, none, some, List, ◌≡◌, ◌≢◌, refl, sym, ap, ◌∙◌,
  inl, inr, arith, Bool-cases, Option-cases,
}
use cqu_netprobe_gateway.RateLimit.{RateLimiter}
use cqu_netprobe_gateway.ClientIp.{NetLibrary}
use cqu_netprobe_gateway.Store.{Lookup, found, not_found, failed}
use cqu_netprobe_gateway.Store.Table.{find, find-column}
use cqu_netprobe_gateway.Store.Catalog.{
  Catalog, Campus, Building, BuildingRow, campus_code_of, building_code_of, scan_campus,
  scan_building, campus_found, building_found, list_campuses, get_campus,
}
use cqu_netprobe_gateway.Store.Catalog.Buildings.{get_building}
use cqu_netprobe_gateway.Portal.Server.{
  Settings, Answer, redirect, plain, RenderFaults, render_form, origin_allowed, with_campuses,
  with_buildings,
}
use cqu_netprobe_gateway.Portal.Register.{
  RegistrationForm, RegisterCall, Surroundings, Checked, answered, passed, ◌>>=◌, require,
  or_answer, found_or, trimmed, validate_registration, Accepted, is_empty_list, check_location,
  check_fields, check_form,
}

-- An answer that shows no token.
abbrev pub IsPage : Answer → Type 0
IsPage r = (path : String) → r ≢ redirect path

pub plain_ne : (status : ℕ) (m path : String) → plain status m ≢ redirect path
plain_ne status m path h = absurd (ground (arith, h))

-- A page with the form is no redirect.
pub render_form-ne :
    (f : RenderFaults) (c : Catalog) (status : ℕ) (message campus path : String)
    → render_form f c status message campus ≢ redirect path
unfolding render_form
render_form-ne f c status message campus path = by_campuses (list_campuses f.campuses_fail c)
  where
    by_buildings :
        (o : Option (List Building)) (l : List Campus)
        → with_buildings status message campus o l ≢ redirect path
    by_buildings none l h = plain_ne 500 "internal error" path h
    by_buildings (some b) l h = absurd (ground (arith, h))

    by_campuses :
        (o : Option (List Campus))
        → with_campuses f.buildings_fail c status message campus o ≢ redirect path
    by_campuses none h = plain_ne 500 "internal error" path h
    by_campuses (some l) h = elim (Bool-cases (campus == "")) [
      | inl e ↦ absurd (ground (arith, rw e at h))
      | inr e ↦ by_buildings _ l (rw e at h)
    ]

-- What holds of a value that passed; an answer shows no token.
abbrev pub Post : (Accepted → Type 0) → Checked Accepted → Type 0
Post P (passed a) = P a
Post P (answered r) = IsPage r

Post-require :
    (P : Accepted → Type 0) (b : Bool) (r : Answer) (m : Checked Accepted)
    → IsPage r
    → Post P m
    → Post P (require b r >>= λ _. m)
Post-require P true r m ne h = h
Post-require P false r m ne h = ne

Post-or_answer :
    {A : Type 0} (P : Accepted → Type 0) (o : Option A) (r : Answer) (f : A → Checked Accepted)
    → IsPage r
    → ((a : A) → Post P (f a))
    → Post P (or_answer o r >>= f)
Post-or_answer P none r f ne h = ne
Post-or_answer P (some a) r f ne h = h a

Post-found_or :
    {A : Type 0} (P : Accepted → Type 0) (o : Lookup A) (r : Answer) (f : A → Checked Accepted)
    → IsPage r
    → ((a : A) → o ≡ found a → Post P (f a))
    → Post P (found_or o r >>= f)
Post-found_or P (found a) r f ne h = h a refl
Post-found_or P not_found r f ne h = ne
Post-found_or P failed r f ne h = ne

-- A building that was read has a row.
get_building-row :
    (fails : Bool) (c : Catalog) (code : String) (b : Building)
    → get_building fails c code ≡ found b
    → (row : BuildingRow) × (find building_code_of code c.buildings ≡ some row)
      × (b.code ≡ code)
      × (row.campus_code ≡ b.campus_code)
unfolding get_building scan_building
get_building-row true c code b h = absurd (ground (arith, h))
get_building-row false c code b h = elim (Option-cases (find building_code_of code c.buildings)) [
  | inl e ↦ absurd (ground (arith, ap building_found e, h))
  | inr (row, e) ↦
      let same = sym (ap building_found e) ∙ h in
      (
        row,
        e,
        sym (ground (arith, same)) ∙ find-column building_code_of code c.buildings row e,
        ground (arith, same),
      )
]

get_campus-code :
    (fails : Bool) (c : Catalog) (code : String) (campus : Campus)
    → get_campus fails c code ≡ found campus
    → campus.code ≡ code
unfolding get_campus scan_campus
get_campus-code true c code campus h = absurd (ground (arith, h))
get_campus-code false c code campus h = elim (Option-cases (find campus_code_of code c.campuses)) [
  | inl e ↦ absurd (ground (arith, ap campus_found e, h))
  | inr (row, e) ↦
      let same = sym (ap campus_found e) ∙ h in
      sym (ground (arith, same)) ∙ find-column campus_code_of code c.campuses row e
]

module _ (R : RateLimiter) (L : NetLibrary) (url_host : String → Option String)
    (token_hash : String → String) where
  -- The location of what passed the checks.
  pub record IsPlaced (c : Catalog) (a : Accepted) : Type 0 where
    pub row : BuildingRow
    pub known : find building_code_of a.building.code c.buildings ≡ some row
    pub agrees : row.campus_code ≡ a.campus.code

  check_location-IsPlaced :
      (c : Catalog) (env : Surroundings) (form : RegistrationForm)
      → Post (IsPlaced c) (check_location R L url_host token_hash c env form)
  unfolding check_location
  check_location-IsPlaced c env form =
      Post-found_or (IsPlaced c) (get_building env.building_fails c form.building_code) _ _
        (render_form-ne env.render c 400 "楼栋不存在，请从列表中选择。" form.campus_code)
        (λ building e.
          Post-found_or (IsPlaced c) (get_campus env.campus_fails c building.campus_code) _ _
            (render_form-ne env.render c 400 "楼栋所属校区不存在。" form.campus_code)
            (λ campus g.
              let (row, at, code, placed) =
                get_building-row env.building_fails c form.building_code building e in
              record {
                row = row;
                known = ap (λ k. find building_code_of k c.buildings) code ∙ at;
                agrees =
                    placed ∙ sym (get_campus-code env.campus_fails c building.campus_code campus g);
              }))

  check_fields-IsPlaced :
      (c : Catalog) (env : Surroundings) (form : RegistrationForm)
      → Post (IsPlaced c) (check_fields R L url_host token_hash c env form)
  unfolding check_fields
  check_fields-IsPlaced c env form =
      let message = validate_registration env.validate_fails c form in
      Post-or_answer (IsPlaced c) (list_campuses env.list_fails c) _ _
        (plain_ne 500 "internal error")
        (λ campuses.
          Post-require (IsPlaced c) (not (is_empty_list campuses)) _ _
            (render_form-ne env.render c 503 "管理员尚未配置任何校区，暂时无法注册。" "")
            (Post-require (IsPlaced c) (message == "") _ _
              (render_form-ne env.render c 400 message form.campus_code)
              (check_location-IsPlaced c env form)))

  pub check_form-IsPlaced :
      (cfg : Settings L) (c : Catalog) (env : Surroundings) (r : RegisterCall)
      → Post (IsPlaced c) (check_form R L url_host token_hash cfg c env r)
  unfolding check_form
  check_form-IsPlaced cfg c env r =
      Post-require (IsPlaced c) (origin_allowed url_host cfg.public_base_url r.origin) _ _
        (plain_ne 403 "forbidden origin")
        (Post-or_answer (IsPlaced c) r.fields _ _ (plain_ne 400 "invalid form")
          (λ fields. check_fields-IsPlaced c env (trimmed fields)))
