-- ===== src/SomeIssuer/Issuance/Outcome.antt =====
-- When `requestCredential` succeeds, and what the page shows of it.
use concordium_web3id.Common.{
  ◌≡◌, ◌↔◌, String, none, some, List, [], ◌∷◌, Result, ok, err, >>=-eq-ok, refl, arith,
}
use concordium_web3id.SomeIssuer.Issuance.{
  finish, Request, Site, IssueRequest, Response, refused, issued, failed, Wallet, NodeAnswer,
  returned, wait, Notice, TxState, status_finalized, obtain, request_credential, notified,
  credential_of, metadata_url, issue_request, read_response,
}

-- The status after notices, the first one first.
abbrev pub shown : List Notice → TxState → TxState
shown [] s = s
shown (n ∷ ns) s = shown ns (notified n s)

abbrev pub blank : TxState
blank = record { transaction = none; transaction_status = none }

read_response-issued :
    {P : Type 0} (r : Response P) {h : String} {p : P}
    → read_response r ≡ ok (h, p)
    → r ≡ issued h p
unfolding read_response
read_response-issued (refused status text) e = ground arith
read_response-issued (issued tx p) e = grind arith
read_response-issued (failed message) e = ground arith

-- The state in which a transaction is shown as finalized.
abbrev pub done_with : String → TxState
done_with tx_hash = record {
  transaction = some tx_hash;
  transaction_status = some status_finalized;
}

finish_shown_iff :
    (r : Result String String) (node : String → List NodeAnswer) (tx_hash : String)
    → (shown (finish r node).notices blank ≡ done_with tx_hash)
      ↔ ((r ≡ ok tx_hash) × ((wait (node tx_hash)).0 ≡ returned))
unfolding finish notified
finish_shown_iff (err message) node tx_hash = grind arith
finish_shown_iff (ok h) node tx_hash = grind arith

finish_returned_iff :
    (r : Result String String) (node : String → List NodeAnswer)
    → ((finish r node).ending ≡ returned)
      ↔ ((tx_hash : String) × (r ≡ ok tx_hash) × ((wait (node tx_hash)).0 ≡ returned))
unfolding finish
finish_returned_iff (err message) node = (λ h. cc, λ h. let (tx_hash, same, ended) = h in cc)
finish_returned_iff (ok h) node =
    (λ ended. (h, refl, ended), λ e. let (tx_hash, same, ended) = e in cc)

module _ {T P : Type 0} (s : Site) (now later : String) (req : Request T)
    (server : IssueRequest T → Response P) where
  -- A wallet took the credential under an id, the server issued it in a transaction, and the wallet
  -- accepted the server's proof.
  pub record IsIssued (wallet : Wallet P) (tx_hash : String) : Type 0 where
    pub id : String
    pub proof : P
    pub offered : wallet.offer (credential_of s now req) (metadata_url s) ≡ ok id
    pub answered : server (issue_request s req later id) ≡ issued tx_hash proof
    pub accepted : wallet.receive proof ≡ ok tt

  obtain-ok :
      (wallet : Wallet P) (tx_hash : String)
      → obtain s now later req wallet server ≡ ok tx_hash
      → IsIssued wallet tx_hash
  unfolding obtain
  obtain-ok wallet tx_hash e =
      let (id, offered, next) =
        >>=-eq-ok (wallet.offer (credential_of s now req) (metadata_url s)) _ e in
      let (answer, read, rest) =
        >>=-eq-ok (read_response (server (issue_request s req later id))) _ next in
      let (done, accepted, same) = >>=-eq-ok (wallet.receive answer.1) _ rest in
      record {
        id = id;
        proof = answer.1;
        offered = offered;
        answered = read_response-issued (server (issue_request s req later id)) cc;
        accepted = accepted;
      }

  obtain-IsIssued :
      (wallet : Wallet P) (tx_hash : String)
      → IsIssued wallet tx_hash
      → obtain s now later req wallet server ≡ ok tx_hash
  unfolding obtain read_response
  obtain-IsIssued wallet tx_hash h = rw (h.offered, h.answered, h.accepted) refl

  -- After one request, on a page that has shown no transaction before and while no other request
  -- runs, the page shows a transaction as finalized exactly when the request returned: the wallet was
  -- connected and took the credential, the server issued it in that transaction, the wallet accepted
  -- the proof, and the node found that very transaction finalized.
  pub request_credential_shown_iff :
      (connected : Result String (Wallet P)) (node : String → List NodeAnswer) (tx_hash : String)
      → (shown (request_credential s now later req connected server node).notices blank
          ≡ done_with tx_hash)
        ↔ ((wallet : Wallet P) × (connected ≡ ok wallet)
            × IsIssued wallet tx_hash
            × ((wait (node tx_hash)).0 ≡ returned))
  unfolding request_credential
  request_credential_shown_iff (err message) node tx_hash =
      let (there, back) = finish_shown_iff (err message) node tx_hash in
      (λ h. let (none_sent, ended) = there h in cc, λ h. let (w, same, facts, ended) = h in cc)
  request_credential_shown_iff (ok wallet) node tx_hash =
      let (there, back) = finish_shown_iff (obtain s now later req wallet server) node tx_hash in
      (
        λ h.
            let (obtained, ended) = there h in
            (wallet, refl, obtain-ok wallet tx_hash obtained, ended),
        λ h.
            let (w, same, facts, ended) = h in
            let obtained = obtain-IsIssued w tx_hash facts in back (cc, ended),
      )

  -- A request returns exactly for a connected wallet and a transaction in which the credential was
  -- issued and which the node found finalized.
  pub request_credential_returned_iff :
      (connected : Result String (Wallet P)) (node : String → List NodeAnswer)
      → ((request_credential s now later req connected server node).ending ≡ returned) ↔ (
          (wallet : Wallet P) × (tx_hash : String) × (connected ≡ ok wallet)
          × IsIssued wallet tx_hash
          × ((wait (node tx_hash)).0 ≡ returned))
  unfolding request_credential
  request_credential_returned_iff (err message) node =
      let (there, back) = finish_returned_iff (err message) node in
      (
        λ h. let (tx_hash, none_sent, ended) = there h in cc,
        λ h. let (w, tx_hash, same, facts, ended) = h in cc,
      )
  request_credential_returned_iff (ok wallet) node =
      let (there, back) = finish_returned_iff (obtain s now later req wallet server) node in
      (
        λ h.
            let (tx_hash, obtained, ended) = there h in
            (wallet, tx_hash, refl, obtain-ok wallet tx_hash obtained, ended),
        λ h.
            let (w, tx_hash, same, facts, ended) = h in
            let obtained = obtain-IsIssued w tx_hash facts in back (tx_hash, cc, ended),
      )
