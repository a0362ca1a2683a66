-- ===== src/Verifier/Outcomes.antt =====
-- Which requests to services/web3id-verifier-ts/src/server.ts get which response.
use concordium_web3id.Common.{
  ◌≡◌, ◌↔◌, ◌⊎◌, inl, inr, refl, ap, String, Bool, Bool-cases, true, false, List, [], ◌∷◌, map,
  Result, ok, err, >>=-eq-ok, Result-cases, All, arith,
}
use concordium_web3id.Verifier.Server.{
  Throwable, rpc_error, other_error, http_error, text, other, from_throwable, CredentialStatus,
  active, revoked, expired, not_activated, PublicData, Services, inactive, check_active, is_active,
  Verified, Answer, sent, failed, passed_on, caught, respond, attempt, verify, handle_verify,
}

-- Every credential of the list is active.
abbrev pub IsActive : {Inputs : Type 0} → List (PublicData Inputs) → Type 0
IsActive ds = All (λ d. d.status ≡ active) ds

is_active_iff : (s : CredentialStatus) → (is_active s ≡ true) ↔ (s ≡ active)
is_active_iff active = (λ e. refl, λ e. refl)
is_active_iff revoked = (λ e. cc, λ e. cc)
is_active_iff expired = (λ e. cc, λ e. cc)
is_active_iff not_activated = (λ e. cc, λ e. cc)

check_active_iff :
    {Inputs : Type 0} (ds : List (PublicData Inputs)) → (check_active ds ≡ ok tt) ↔ IsActive ds
unfolding check_active
check_active_iff [] = (λ e. tt, λ h. refl)
check_active_iff (d ∷ ds) = (
  λ e. ground (arith, is_active_iff d.status, check_active_iff ds),
  λ h. ground (arith, is_active_iff d.status, check_active_iff ds),
)

-- `publicData.forEach(…)` throws the one error only.
check_active-cases :
    {Inputs : Type 0} (ds : List (PublicData Inputs))
    → (check_active ds ≡ ok tt) ⊎ (check_active ds ≡ err inactive)
unfolding check_active
check_active-cases [] = inl refl
check_active-cases (d ∷ ds) = elim (Bool-cases (is_active d.status)) [
  | inl yes_ ↦ rw (yes_, check_active) (check_active-cases ds)
  | inr no_ ↦ inr (rw (no_, check_active))
]

respond-eq-sent : {A : Type 0} (r : Result Throwable A) {v : A} → respond r ≡ sent v → r ≡ ok v
respond-eq-sent (ok a) e = cc
respond-eq-sent (err (rpc_error m)) e = cc
respond-eq-sent (err (other_error m)) e = cc
respond-eq-sent (err (http_error c m)) e = cc
respond-eq-sent (err (text m)) e = cc
respond-eq-sent (err other) e = cc

caught-eq-ok : {A : Type 0} (r : Result Throwable A) {v : A} → caught r ≡ ok v → r ≡ ok v
unfolding from_throwable
caught-eq-ok (ok a) e = e
caught-eq-ok (err (rpc_error m)) e = cc
caught-eq-ok (err (other_error m)) e = cc
caught-eq-ok (err (http_error c m)) e = cc
caught-eq-ok (err (text m)) e = cc
caught-eq-ok (err other) e = cc

abbrev pub is_rpc_error : Throwable → Bool
is_rpc_error (rpc_error m) = true
is_rpc_error _ = false

abbrev pub is_http_error : Throwable → Bool
is_http_error (http_error c m) = true
is_http_error _ = false

-- What a thrown value says.
abbrev pub message : Throwable → String
message (rpc_error m) = m
message (other_error m) = m
message (http_error c m) = m
message (text m) = m
message other = "An error happened while handling the request"

module _ {Vp Hash Time Params Inputs Request : Type 0}
    (services : Services Vp Hash Time Params Inputs Request) where
  -- All that has to go well for a body to be answered with `v`, at one block throughout.
  pub record IsVerified (body : String) (v : Verified Hash Time Request) : Type 0 where
    pub vp : Vp
    pub public_data : List (PublicData Inputs)
    pub params : Params
    pub parsed : services.from_string body ≡ ok vp
    pub at_block : services.get_block_info ≡ ok (v.block_hash, v.block_time)
    pub found : services.get_public_data vp v.block_hash ≡ ok public_data
    pub all_active : IsActive public_data
    pub global : services.get_cryptographic_parameters v.block_hash ≡ ok params
    pub checked :
        services.verify_presentation vp params (map (λ d. d.inputs) public_data) ≡ ok v.request

  attempt-eq-ok :
      (body : String) (vp : Vp) (v : Verified Hash Time Request)
      → services.from_string body ≡ ok vp
      → attempt services vp ≡ ok v
      → IsVerified body v
  unfolding attempt
  attempt-eq-ok body vp v parsed e =
      let (block, at_block, e1) = >>=-eq-ok services.get_block_info _ e in
      let (ds, found, e2) = >>=-eq-ok (services.get_public_data vp block.0) _ e1 in
      let (t, all_active, e3) = >>=-eq-ok (check_active ds) _ e2 in
      let (params, global, e4) = >>=-eq-ok (services.get_cryptographic_parameters block.0) _ e3 in
      let (request, checked, e5) = >>=-eq-ok (services.verify_presentation vp params _) _ e4 in
      let same : v ≡ record { block_hash = block.0; block_time = block.1; request = request } =
        cc (e5) in
      rw same (record {
        vp = vp;
        public_data = ds;
        params = params;
        parsed = parsed;
        at_block = at_block;
        found = found;
        all_active = (check_active_iff ds).0 all_active;
        global = global;
        checked = checked;
      })

  attempt_complete :
      (body : String) (v : Verified Hash Time Request) (h : IsVerified body v)
      → attempt services h.vp ≡ ok v
  unfolding attempt
  attempt_complete body v h = rw h.at_block (
      rw h.found
        (rw ((check_active_iff h.public_data).1 h.all_active) (rw h.global (rw h.checked refl))))

  -- A request is answered with `v` exactly when its body parses, and at one block, the one named in
  -- `v`, the node gives the credentials' data and the chain's parameters, every credential is active,
  -- and the verification against the credentials' inputs, in the presentation's order, gives `v`'s
  -- request.
  pub handle_verify_sent_iff :
      (body : String) (v : Verified Hash Time Request)
      → (handle_verify services body ≡ sent v) ↔ IsVerified body v
  unfolding handle_verify verify
  handle_verify_sent_iff body v = (
    λ e.
        let (vp, parsed, e1) = >>=-eq-ok (services.from_string body) _ (respond-eq-sent _ e) in
        attempt-eq-ok body vp v parsed (caught-eq-ok _ e1),
    λ h. rw h.parsed (ap (λ r. respond (caught r)) (attempt_complete body v h)),
  )

  -- A request whose body parses and whose credentials are found, but are not all active, is refused
  -- with status 400 and that message, whatever the parameters and the verification would give.
  pub handle_verify_inactive :
      (body : String) (vp : Vp) (block : Hash × Time) (ds : List (PublicData Inputs))
      → services.from_string body ≡ ok vp
      → services.get_block_info ≡ ok block
      → services.get_public_data vp block.0 ≡ ok ds
      → ¬ IsActive ds
      → handle_verify services body
        ≡ failed 400 "One or more credentials in the presentation are inactive"
  unfolding handle_verify verify attempt from_throwable
  handle_verify_inactive body vp block ds parsed at_block found bad = elim (check_active-cases ds) [
    | inl good ↦ absurd (bad ((check_active_iff ds).0 good))
    | inr thrown ↦ rw parsed (rw at_block (rw found (rw thrown refl)))
  ]

  -- The four ways in which a request can end.
  pub data Outcome (body : String) : Answer (Verified Hash Time Request) → Type 0 where
    verified : (v : Verified Hash Time Request) → IsVerified body v → Outcome body (sent v)
    node_failed :
        (vp : Vp) (m : String)
        → services.from_string body ≡ ok vp
        → attempt services vp ≡ err (rpc_error m)
        → Outcome body (failed 500 m)
    refused :
        (vp : Vp) (e : Throwable)
        → services.from_string body ≡ ok vp
        → attempt services vp ≡ err e
        → is_rpc_error e ≡ false
        → Outcome body (failed 400 (message e))
    malformed : (e : Throwable) → services.from_string body ≡ err e → Outcome body (passed_on e)

  thrown-Outcome :
      (body : String) (vp : Vp) (e : Throwable)
      → services.from_string body ≡ ok vp
      → attempt services vp ≡ err e
      → Outcome body (respond (caught (err e)))
  unfolding from_throwable
  thrown-Outcome body vp (rpc_error m) parsed thrown = node_failed vp m parsed thrown
  thrown-Outcome body vp (other_error m) parsed thrown =
      refused vp (other_error m) parsed thrown refl
  thrown-Outcome body vp (http_error c m) parsed thrown =
      refused vp (http_error c m) parsed thrown refl
  thrown-Outcome body vp (text m) parsed thrown = refused vp (text m) parsed thrown refl
  thrown-Outcome body vp other parsed thrown = refused vp other parsed thrown refl

  malformed-Outcome :
      (body : String) (e : Throwable)
      → services.from_string body ≡ err e
      → is_http_error e ≡ false
      → Outcome body (respond (err e))
  malformed-Outcome body (rpc_error m) thrown plain = malformed (rpc_error m) thrown
  malformed-Outcome body (other_error m) thrown plain = malformed (other_error m) thrown
  malformed-Outcome body (http_error c m) thrown plain = cc
  malformed-Outcome body (text m) thrown plain = malformed (text m) thrown
  malformed-Outcome body other thrown plain = malformed other thrown

  -- If the parser does not throw the service's own error class, then every request is answered with a
  -- verified result, or with status 500 and the message of an error of the node, or with status 400
  -- and the message of another error thrown after parsing, or, where parsing threw, is not answered
  -- by the service's error handler but passed on.
  pub handle_verify-Outcome :
      (body : String)
      → ((e : Throwable) → services.from_string body ≡ err e → is_http_error e ≡ false)
      → Outcome body (handle_verify services body)
  unfolding handle_verify verify
  handle_verify-Outcome body plain = elim (Result-cases (services.from_string body)) [
    | inr (e, thrown) ↦ rw thrown (malformed-Outcome body e thrown (plain e thrown))
    | inl (vp, parsed) ↦ elim (Result-cases (attempt services vp)) [
      | inl (v, verified_) ↦
          rw parsed (rw verified_ (verified v (attempt-eq-ok body vp v parsed verified_)))
      | inr (e, thrown) ↦ rw parsed (rw thrown (thrown-Outcome body vp e parsed thrown))
    ]
  ]
