-- ===== src/Protocol/Decode/Shape.antt =====
-- What structural decoding keeps and how it fails.
use cqu_netprobe_gateway.Prelude.{
  ℕ, String, true, Option, none, some, List, [], ◌∷◌, ◌==◌, ◌≡◌, ◌≢◌, ◌∙◌, refl, sym, ap, subst,
  inl, inr, All, Bool-cases, arith,
}
use cqu_netprobe_gateway.Prelude.GoMap.{GoMap, IsMap}
use cqu_netprobe_gateway.Protocol.Errors.{
  Error, ok, err, ◌>>=◌, ok_inj, err_inj, >>=-eq-ok, >>=-eq-err, invalid_json,
}
use cqu_netprobe_gateway.Protocol.Types.{Measurement, Results, PushRequest}
use cqu_netprobe_gateway.Protocol.Request.Accepts.{AreMaps}
use cqu_netprobe_gateway.Protocol.Decode.{
  JsonLibrary, RawRequest, or_invalid, json_fields, decode_icmp, decode_dns, decode_http,
  decode_measurement, decode_types, decode_targets, decode_raw, decode_first, decode,
}

-- The same keys in the same order.
abbrev pub SameKeys {ℓ κ} : {A : Type ℓ} {B : Type κ} → GoMap A → GoMap B → Type 0
SameKeys [] [] = Unit
SameKeys ((j, a) ∷ m) ((k, b) ∷ n) = (j ≡ k) × SameKeys m n
SameKeys _ _ = ⊥

-- The same targets, each with the same probe types.
abbrev pub SameShape {ℓ κ} : {A : Type ℓ} {B : Type κ} → GoMap (GoMap A) → GoMap (GoMap B) → Type 0
SameShape [] [] = Unit
SameShape ((j, a) ∷ m) ((k, b) ∷ n) = (j ≡ k) × SameKeys a b × SameShape m n
SameShape _ _ = ⊥

module _ {ℓ κ} {A : Type ℓ} {B : Type κ} where
  All-SameKeys :
      (i : String) (m : GoMap A) (n : GoMap B)
      → SameKeys m n
      → All (λ e. i ≢ e.0) m
      → All (λ e. i ≢ e.0) n
  All-SameKeys i [] [] s h = tt
  All-SameKeys i [] (f ∷ n) s h = absurd s
  All-SameKeys i (e ∷ m) [] s h = absurd s
  All-SameKeys i ((j, a) ∷ m) ((k, b) ∷ n) s h =
      (λ q. h.0 (q ∙ sym s.0), All-SameKeys i m n s.1 h.1)

  IsMap-SameKeys : (m : GoMap A) (n : GoMap B) → SameKeys m n → IsMap m → IsMap n
  IsMap-SameKeys [] [] s h = tt
  IsMap-SameKeys [] (f ∷ n) s h = absurd s
  IsMap-SameKeys (e ∷ m) [] s h = absurd s
  IsMap-SameKeys ((j, a) ∷ m) ((k, b) ∷ n) s h =
      (rw (sym s.0) (All-SameKeys j m n s.1 h.0), IsMap-SameKeys m n s.1 h.1)

module _ (J : JsonLibrary) where
  -- The maps of a body that was read.
  abbrev pub AreRawMaps : GoMap (GoMap J.Raw) → Type 0
  AreRawMaps m = IsMap m × All (λ e. IsMap e.1) m

  decode_types-SameKeys :
      (m : GoMap J.Raw) (n : GoMap Measurement) → decode_types J m ≡ ok n → SameKeys m n
  unfolding decode_types
  decode_types-SameKeys [] n h = subst (λ n. SameKeys {A = J.Raw} [] n) (ok_inj h) tt
  decode_types-SameKeys ((name, body) ∷ m) n h =
      let (x, _, h1) = >>=-eq-ok (decode_measurement J name body) _ h in
      let (rest, e, h2) = >>=-eq-ok (decode_types J m) _ h1 in
      subst (SameKeys ((name, body) ∷ m)) (ok_inj h2) (refl, decode_types-SameKeys m rest e)

  decode_targets-SameShape :
      (m : GoMap (GoMap J.Raw)) (n : Results) → decode_targets J m ≡ ok n → SameShape m n
  unfolding decode_targets
  decode_targets-SameShape [] n h = subst (λ n. SameShape {A = J.Raw} [] n) (ok_inj h) tt
  decode_targets-SameShape ((target, by_type) ∷ m) n h =
      let (types, d, h1) = >>=-eq-ok (decode_types J by_type) _ h in
      let (rest, e, h2) = >>=-eq-ok (decode_targets J m) _ h1 in
      subst (SameShape ((target, by_type) ∷ m)) (ok_inj h2)
        (refl, decode_types-SameKeys by_type types d, decode_targets-SameShape m rest e)

  AreMaps-SameShape :
      (m : GoMap (GoMap J.Raw)) (n : Results) → SameShape m n → AreRawMaps m → AreMaps n
  AreMaps-SameShape m n s (outer, inner) =
      (IsMap-SameKeys m n (keys_of_shape m n s) outer, inner_maps m n s inner)
    where
      keys_of_shape : (m : GoMap (GoMap J.Raw)) (n : Results) → SameShape m n → SameKeys m n
      keys_of_shape [] [] s = tt
      keys_of_shape [] (f ∷ n) s = absurd s
      keys_of_shape (e ∷ m) [] s = absurd s
      keys_of_shape ((j, a) ∷ m) ((k, b) ∷ n) s = (s.0, keys_of_shape m n s.2)

      inner_maps :
          (m : GoMap (GoMap J.Raw)) (n : Results)
          → SameShape m n
          → All (λ e. IsMap e.1) m
          → All (λ e. IsMap e.1) n
      inner_maps [] [] s h = tt
      inner_maps [] (f ∷ n) s h = absurd s
      inner_maps (e ∷ m) [] s h = absurd s
      inner_maps ((j, a) ∷ m) ((k, b) ∷ n) s h =
          (IsMap-SameKeys a b s.1 h.0, inner_maps m n s.2 h.1)

  -- Structural decoding keeps every target and every probe type of a body, the unknown ones for the
  -- request rules to reject, and gives them maps.
  pub decode-SameShape :
      (body rest : List ℕ) (raw : RawRequest J.Raw) (r : PushRequest)
      → J.decode_request body ≡ some (raw, rest)
      → AreRawMaps raw.results
      → decode J body ≡ ok r
      → SameShape raw.results r.results × AreMaps r.results
  unfolding decode decode_first decode_raw
  decode-SameShape body rest raw r e maps h = elim (Bool-cases (J.at_eof rest)) [
    | inl ends ↦
        let (results, d, q) = >>=-eq-ok (decode_targets J raw.results) _ (decode_of ends) in
        let shape =
          subst (SameShape raw.results) (ap (λ (r : PushRequest). r.results) (ok_inj q))
            (decode_targets-SameShape raw.results results d) in
        (shape, AreMaps-SameShape raw.results r.results shape maps)
    | inr more ↦ absurd (trailing (rw (e, more) at h))
  ]
    where
      decode_of : J.at_eof rest ≡ true → decode_raw J raw ≡ ok r
      decode_of ends = rw (e, ends) at h

      trailing : {x : Error} → ¬ (err x ≡ ok r)
      trailing q = ground (arith, q)

  json_fields-code : (body : J.Raw) (e : Error) → json_fields J body ≡ err e → e.code ≡ invalid_json
  unfolding json_fields
  json_fields-code body e h = ground (arith, h)

  or_invalid-code {ℓ} :
      {T : Type ℓ} (message : String) (o : Option T) (e : Error)
      → or_invalid message o ≡ err e
      → e.code ≡ invalid_json
  or_invalid-code message none e h = sym (ap (λ (x : Error). x.code) (err_inj h))
  or_invalid-code message (some a) e h = absurd (ground (arith, h))

  -- The shape that the three decoders share.
  wire-code {ℓ κ} :
      {T : Type ℓ} {U : Type κ} (body : J.Raw) (message : String) (o : Option T) (f : T → U)
      (e : Error)
      → (json_fields J body >>= λ _. or_invalid message o >>= λ w. ok (f w)) ≡ err e
      → e.code ≡ invalid_json
  wire-code body message o f e h = elim (>>=-eq-err (json_fields J body) _ h) [
    | inl q ↦ json_fields-code body e q
    | inr (_, _, q) ↦ elim (>>=-eq-err (or_invalid message o) _ q) [
      | inl p ↦ or_invalid-code message o e p
      | inr (a, _, p) ↦ absurd (ground (arith, p))
    ]
  ]

  decode_measurement-code :
      (pt : String) (body : J.Raw) (e : Error)
      → decode_measurement J pt body ≡ err e
      → e.code ≡ invalid_json
  unfolding decode_measurement decode_icmp decode_dns decode_http
  decode_measurement-code pt body e h = elim (Bool-cases (pt == "icmp")) [
    | inl i ↦ wire-code body _ (J.as_icmp body) _ e (rw i at h)
    | inr ni ↦ elim (Bool-cases (pt == "dns")) [
      | inl d ↦ wire-code body _ (J.as_dns body) _ e (rw (ni, d) at h)
      | inr nd ↦ elim (Bool-cases (pt == "http")) [
        | inl t ↦ wire-code body _ (J.as_http body) _ e (rw (ni, nd, t) at h)
        | inr nt ↦ absurd (no_error (rw (ni, nd, nt) at h))
      ]
    ]
  ]
    where
      no_error : {m : Measurement} → ¬ (ok m ≡ err e)
      no_error q = ground (arith, q)

  decode_types-code :
      (m : GoMap J.Raw) (e : Error) → decode_types J m ≡ err e → e.code ≡ invalid_json
  unfolding decode_types
  decode_types-code [] e h = absurd (ground (arith, h))
  decode_types-code ((name, body) ∷ m) e h =
      elim (>>=-eq-err (decode_measurement J name body) _ h) [
        | inl q ↦ decode_measurement-code name body e q
        | inr (_, _, q) ↦ elim (>>=-eq-err (decode_types J m) _ q) [
          | inl p ↦ decode_types-code m e p
          | inr (_, _, p) ↦ absurd (ground (arith, p))
        ]
      ]

  decode_targets-code :
      (m : GoMap (GoMap J.Raw)) (e : Error) → decode_targets J m ≡ err e → e.code ≡ invalid_json
  unfolding decode_targets
  decode_targets-code [] e h = absurd (ground (arith, h))
  decode_targets-code ((target, by_type) ∷ m) e h = elim (>>=-eq-err (decode_types J by_type) _ h) [
    | inl q ↦ decode_types-code by_type e q
    | inr (_, _, q) ↦ elim (>>=-eq-err (decode_targets J m) _ q) [
      | inl p ↦ decode_targets-code m e p
      | inr (_, _, p) ↦ absurd (ground (arith, p))
    ]
  ]

  decode_first-code :
      (o : Option (RawRequest J.Raw × List ℕ)) (e : Error)
      → decode_first J o ≡ err e
      → e.code ≡ invalid_json
  unfolding decode_first decode_raw
  decode_first-code none e h = sym (ap (λ (x : Error). x.code) (err_inj h))
  decode_first-code (some (raw, rest)) e h = elim (Bool-cases (J.at_eof rest)) [
    | inr more ↦ sym (ap (λ (x : Error). x.code) (err_inj (rw more at h)))
    | inl ends ↦ elim (>>=-eq-err (decode_targets J raw.results) _ (rw ends at h)) [
      | inl q ↦ decode_targets-code raw.results e q
      | inr (_, _, q) ↦ absurd (ground (arith, q))
    ]
  ]

  -- Every failure of structural decoding is `invalid_json`.
  pub decode-code : (body : List ℕ) (e : Error) → decode J body ≡ err e → e.code ≡ invalid_json
  unfolding decode
  decode-code body e h = decode_first-code (J.decode_request body) e h
