-- ===== src/Portal/Register/Registered.antt =====
-- A registration adds one probe, where the cap has room, and shows its token; or adds none.
use Prim.Native.String
use cqu_netprobe_gateway.Prelude.{
  ℕ, ◌+◌, ◌<◌, String, false, Option, none, some, ◌≡◌, ◌≢◌, refl, sym, ap, subst, ◌∙◌, inl, inr,
  arith, leb, Bool-cases, Option-cases, length,
}
use cqu_netprobe_gateway.Prelude.GoMap.{lookup, lookup-insert_here}
use cqu_netprobe_gateway.Prelude.GoMap.Retain.{retain}
use cqu_netprobe_gateway.RateLimit.{RateLimiter}
use cqu_netprobe_gateway.ClientIp.{NetLibrary, from}
use cqu_netprobe_gateway.Store.Table.{append, find, find-append_new}
use cqu_netprobe_gateway.Store.{Probe, found}
use cqu_netprobe_gateway.Store.Probes.{
  ProbeRow, ProbeTable, probe_id_of, token_hash_of, count_probes, scan_probe, scan_found,
  probe_by_token_hash,
}
use cqu_netprobe_gateway.Store.Catalog.{Catalog, building_code_of}
use cqu_netprobe_gateway.Store.Catalog.Consistent.{IsLocated}
use cqu_netprobe_gateway.Portal.OneShot.{
  OneShot, OneShotStore, is_current, safe_back_path, put_pair,
}
use cqu_netprobe_gateway.Portal.Limiter.{RegisterLimiter, allow}
use cqu_netprobe_gateway.Portal.Server.{Portal, Settings, Answer, redirect, internal_error}
use cqu_netprobe_gateway.Portal.Register.{
  RegisterCall, Surroundings, Checked, answered, passed, Accepted, check_form, new_probe,
  max_attempts, show_slot, create_with_token, check_cap, cap_message, spend_of, within_allowance,
  register_checked, handle_register,
}
use cqu_netprobe_gateway.Portal.Register.Added.{
  Added, LoopCase, gave_up, left_row, created, create_loop-case,
}
use cqu_netprobe_gateway.Portal.Register.Effects.{
  Post, IsPlaced, check_form-IsPlaced, plain_ne, render_form-ne,
}

-- What the answer with a slot promises.
pub record Shows (o : OneShotStore) (path : String) (row : ProbeRow) (token : String) : Type 0 where
  pub slot : String
  pub path_at : path ≡ String.◌++◌ "/token/" slot
  pub rec : OneShot
  pub stored : lookup slot o.slots ≡ some rec
  pub probe_at : rec.probe_id ≡ row.probe_id
  pub token_at : rec.value ≡ token

-- The row of a self-registered probe, with room under the cap before it.
pub record Registered (token_hash : String → String) (max : ℕ) (before after : ProbeTable)
    (c : Catalog) (token : String) : Type 0 where
  pub row : ProbeRow
  pub rows : after.rows ≡ append before.rows row
  pub id_free : find probe_id_of row.probe_id before.rows ≡ none
  pub token_free : find token_hash_of row.token_hash before.rows ≡ none
  pub token_at : row.token_hash ≡ token_hash token
  pub enabled_at : row.enabled ≡ 1
  pub via_at : row.created_via ≡ "public"
  pub located : IsLocated c row
  pub room : length before.rows < max

module _ (R : RateLimiter) (L : NetLibrary) (url_host : String → Option String)
    (token_hash : String → String) where
  -- How a registration ends.
  pub data RegisterCase (max : ℕ) (t : ProbeTable) (c : Catalog) : Portal R × Answer → Type 0 where
    no_row :
        (s' : Portal R) (answer : Answer)
        → s'.probes ≡ t
        → s'.catalog ≡ c
        → ((path : String) → answer ≢ redirect path)
        → RegisterCase max t c (s', answer)
    one_row :
        (s' : Portal R) (answer : Answer) (token : String)
        → s'.catalog ≡ c
        → (n : Registered token_hash max t s'.probes c token)
        → ((path : String) → answer ≡ redirect path → Shows s'.one_shot path n.row token)
        → RegisterCase max t c (s', answer)

  Added-Registered :
      (max : ℕ) (t t' : ProbeTable) (c : Catalog) (a : Accepted) (token id : String)
      → IsPlaced R L url_host token_hash c a
      → length t.rows < max
      → Added (new_probe R L url_host token_hash a token) t t' id
      → Registered token_hash max t t' c token
  unfolding new_probe
  Added-Registered max t t' c a token id placed room added = record {
    row = added.row;
    rows = added.rows;
    id_free = added.id_free;
    token_free = added.token_free;
    token_at = added.token_at;
    enabled_at = added.enabled_at;
    via_at = added.via_at;
    located = record {
      building = placed.row;
      known = ap (λ k. find building_code_of k c.buildings) added.building_at ∙ placed.known;
      agrees = placed.agrees ∙ sym added.campus_at;
    };
    room = room;
  }

  redirect_inj : (a b : String) → redirect a ≡ redirect b → a ≡ b
  redirect_inj a b h = ground (arith, h)

  -- The slot is stored with the ID of the row and the token.
  show_slot-case :
      (max : ℕ) (s : Portal R) (env : Surroundings) (a : Accepted) (token : String)
      (x : ProbeTable × Option Probe)
      → IsPlaced R L url_host token_hash s.catalog a
      → length s.probes.rows < max
      → LoopCase s.probes (new_probe R L url_host token_hash a token) x
      → RegisterCase max s.probes s.catalog (show_slot R L url_host token_hash s env token x)
  unfolding show_slot put_pair Added-Registered
  show_slot-case max s env a token x placed room gave_up =
      no_row _ internal_error refl refl (plain_ne 500 "internal error")
  show_slot-case max s env a token x placed room (left_row t' id added) =
      one_row _ internal_error token refl
        (Added-Registered max s.probes t' s.catalog a token id placed room added)
        (λ path h. absurd (plain_ne 500 "internal error" path h))
  show_slot-case max s env a token x placed room (created t' q added) =
      elim (Option-cases env.slot) [
        | inl e ↦ rw e (
            one_row _ internal_error token refl
              (Added-Registered max s.probes t' s.catalog a token q.probe_id placed room added)
              (λ path h. absurd (plain_ne 500 "internal error" path h)))
        | inr (slot, e) ↦ rw e (
            one_row _ (redirect (String.◌++◌ "/token/" slot)) token refl
              (Added-Registered max s.probes t' s.catalog a token q.probe_id placed room added)
              (λ path h. record {
                slot = slot;
                path_at = sym (redirect_inj (String.◌++◌ "/token/" slot) path h);
                rec = record {
                  probe_id = q.probe_id;
                  value = token;
                  back = safe_back_path "/";
                  expires = env.slot_now + s.one_shot.ttl;
                };
                stored =
                    lookup-insert_here slot _ (retain (is_current env.slot_now) s.one_shot.slots);
                probe_at = sym added.id_at;
                token_at = refl;
              }))
      ]

  pub create_with_token-case :
      (max : ℕ) (s : Portal R) (env : Surroundings) (a : Accepted) (o : Option String)
      → IsPlaced R L url_host token_hash s.catalog a
      → length s.probes.rows < max
      → RegisterCase max s.probes s.catalog (create_with_token R L url_host token_hash s env a o)
  unfolding create_with_token
  create_with_token-case max s env a none placed room =
      no_row s internal_error refl refl (plain_ne 500 "internal error")
  create_with_token-case max s env a (some token) placed room =
      show_slot-case max s env a token _ placed room (
        create_loop-case R L url_host token_hash max_attempts 0 env.attempt a.campus.code
          a.building.code s.probes (new_probe R L url_host token_hash a token))

  check_cap-case :
      (cfg : Settings L) (s : Portal R) (env : Surroundings) (a : Accepted)
      → IsPlaced R L url_host token_hash s.catalog a
      → RegisterCase cfg.max_probes s.probes s.catalog
          (check_cap R L url_host token_hash cfg s env a (count_probes env.count_fails s.probes))
  unfolding check_cap count_probes create_with_token show_slot
  check_cap-case cfg s env a placed = elim (Bool-cases env.count_fails) [
    | inl e ↦ rw e (no_row s internal_error refl refl (plain_ne 500 "internal error"))
    | inr e ↦ elim (Bool-cases (leb cfg.max_probes (length s.probes.rows))) [
      | inl g ↦
          rw (e, g)
            (no_row s _ refl refl (
              render_form-ne env.render s.catalog 503 (cap_message cfg.max_probes)
                a.form.campus_code))
      | inr g ↦
          rw (e, g)
            (create_with_token-case cfg.max_probes s env a env.token placed (ground (arith, g)))
    ]
  ]

  within_allowance-case :
      (cfg : Settings L) (env : Surroundings) (a : Accepted) (s : Portal R)
      (o : Option (RegisterLimiter R)) (ip : String)
      → IsPlaced R L url_host token_hash s.catalog a
      → RegisterCase cfg.max_probes s.probes s.catalog (
          within_allowance R L url_host token_hash cfg env a
            (spend_of R L url_host token_hash s o ip env))
  unfolding within_allowance spend_of
  within_allowance-case cfg env a s none ip placed = check_cap-case cfg s env a placed
  within_allowance-case cfg env a s (some l) ip placed =
      let s' : Portal R = record s {
        limiter = some (allow R l ip env.limiter_now env.limiter_at).0;
      } in
      elim (Bool-cases (allow R l ip env.limiter_now env.limiter_at).1) [
        | inl e ↦ rw e (check_cap-case cfg s' env a placed)
        | inr e ↦ rw e (
            no_row s' _ refl refl
              (render_form-ne env.render s.catalog 429 "注册过于频繁，请稍后再试。" a.form.campus_code))
      ]

  -- Every registration, however it is answered and whatever fails on the way.
  handle_register-case :
      (cfg : Settings L) (s : Portal R) (env : Surroundings) (r : RegisterCall)
      → RegisterCase cfg.max_probes s.probes s.catalog
          (handle_register R L url_host token_hash cfg s env r)
  unfolding handle_register register_checked
  handle_register-case cfg s env r =
      by_check (check_form R L url_host token_hash cfg s.catalog env r)
        (check_form-IsPlaced R L url_host token_hash cfg s.catalog env r)
    where
      by_check :
          (m : Checked Accepted)
          → Post (IsPlaced R L url_host token_hash s.catalog) m
          → RegisterCase cfg.max_probes s.probes s.catalog
              (register_checked R L url_host token_hash cfg s env r m)
      by_check (answered answer) h = no_row s answer refl refl h
      by_check (passed a) placed =
          within_allowance-case cfg env a s s.limiter (from L r.client cfg.trusted_proxies) placed

  -- A registration that is answered with a slot created one probe, enabled at once, at a building of
  -- the catalog and with room under the cap; the slot shows its ID and its token, and the token
  -- authenticates it.
  pub handle_register-redirect :
      (cfg : Settings L) (s s' : Portal R) (env : Surroundings) (r : RegisterCall) (path : String)
      → handle_register R L url_host token_hash cfg s env r ≡ (s', redirect path)
      → (token : String) × (n : Registered token_hash cfg.max_probes s.probes s'.probes s.catalog
          token)
        × Shows s'.one_shot path n.row token
        × (probe_by_token_hash false s'.probes (token_hash token) ≡ found (scan_probe n.row))
  unfolding probe_by_token_hash
  handle_register-redirect cfg s s' env r path h =
      read_case (s', redirect path)
        (subst (RegisterCase cfg.max_probes s.probes s.catalog) h
          (handle_register-case cfg s env r))
        refl
    where
      Promise : Portal R → Type 0
      Promise u =
          (token : String) × (n : Registered token_hash cfg.max_probes s.probes u.probes s.catalog
            token)
          × Shows u.one_shot path n.row token
          × (scan_found (find token_hash_of (token_hash token) u.probes.rows)
              ≡ found (scan_probe n.row))

      read_case :
          (x : Portal R × Answer)
          → RegisterCase cfg.max_probes s.probes s.catalog x
          → x.1 ≡ redirect path
          → Promise x.0
      read_case x (no_row u answer probes catalog page) e = absurd (page path e)
      read_case x (one_row u answer token catalog n shows) e = (
        token,
        n,
        shows path e,
        ap scan_found (
            ap (find token_hash_of (token_hash token)) n.rows
            ∙ ap (λ k. find token_hash_of k (append s.probes.rows n.row)) (sym n.token_at)
            ∙ find-append_new token_hash_of s.probes.rows n.row n.token_free),
      )
