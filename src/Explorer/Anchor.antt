-- ===== src/Explorer/Anchor.antt =====
-- `createAnchorAndSubmitService` of test-tools/proof-explorer/src/services/anchor-service.tsx and its
-- caller `createAnchorAndSubmit` in src/components/ProofExplorer.tsx, with
-- `BrowserWalletProvider.sendRegisterDataTransaction` of src/services/wallet-connection.ts. The web
-- SDK's `createAnchor`, `DataBlob` and `TransactionHash.fromHexString`, and the wallet's
-- `sendTransaction`, come in as functions.
pub mod Requests
use Prim.Native.String.{◌++◌}
use concordium_web3id.Common.{
  ℕ, String, Bool, true, false, Option, none, some, List, Result, ok, err, ◌>>=◌, ◌>>◌, throw_if,
  is_empty,
}
use concordium_web3id.Explorer.Types.{TopLevelStatement, SubjectClaimsType}
use concordium_web3id.Explorer.Thrown.{
  Thrown, error_object, plain_object, nullish, primitive, error,
}
use concordium_web3id.Explorer.Claims.{SubjectClaims, get_subject_claims}
use concordium_web3id.Explorer.Wallet.{truthy}

-- A connected wallet: the browser wallet with its account, or one over WalletConnect.
pub data Provider : Type 0 where
  browser : (connected_account : Option String) → Provider
  wallet_connect : Provider

-- What the anchor is made from.
pub record AnchorInput (C A : Type 0) : Type 0 where
  pub context : C
  pub claims : List (SubjectClaims A)
  pub public_info : Bool

-- `new Error(`Error sending transaction: ${(err as Error).message}`)`; to read a property of `null` or
-- `undefined` is a TypeError.
abbrev wrapped_error : Thrown → Thrown
wrapped_error (error_object has_code m) = error ("Error sending transaction: " ++ m)
wrapped_error (plain_object has_code (some m)) = error ("Error sending transaction: " ++ m)
wrapped_error (plain_object has_code none) = error "Error sending transaction: undefined"
wrapped_error nullish = error "Cannot read properties of undefined (reading 'message')"
wrapped_error primitive = error "Error sending transaction: undefined"

-- The text that is shown after a submission, one constructor for each template.
pub data Submission : Type 0 where
  connect_first : Submission
  completed : String → Submission
  failed : Thrown → Submission

-- The part of the page's state that the anchor is about.
pub record Anchoring (H : Type 0) : Type 0 where
  pub submission_result : Option Submission
  pub transaction_hash : Option H

unfoldable pub send_register_data_transaction :
    {B : Type 0} → (String → B → Result Thrown String) → Option String → B → Result Thrown String
send_register_data_transaction send_transaction connected_account payload =
    elim (truthy connected_account) [
      | some account ↦ send_transaction account payload
      | none ↦ err (error "No connected account to send transaction.")
    ]

-- `catch (err) { throw … }`
abbrev wrapped : {A : Type 0} → Result Thrown A → Result Thrown A
wrapped (ok a) = ok a
wrapped (err e) = err (wrapped_error e)

-- The message for another provider than the browser wallet.
abbrev other_wallet : String
other_wallet =
    "Connect to the browser wallet to send the anchor transaction on-chain (simulates the merchant backend). \n                For the \"prove\" button below, meaning generating the identity proof, you can switch/connect the mobile wallet, IdApp or browser wallet."

-- Only the browser wallet sends; the error for another provider is wrapped like any other.
abbrev pub send :
    {B : Type 0} → (String → B → Result Thrown String) → Provider → B → Result Thrown String
unfolding send_register_data_transaction
send send_transaction (browser account) payload =
    wrapped (send_register_data_transaction send_transaction account payload)
send send_transaction wallet_connect payload = wrapped (err (error other_wallet))

module _ {A C B : Type 0} (create_anchor : AnchorInput C A → Result Thrown B)
    (send_transaction : String → B → Result Thrown String) where
  unfoldable pub create_anchor_and_submit_service :
      {Address : Type 0}
      → Provider
      → List (TopLevelStatement A Address)
      → SubjectClaimsType
      → C
      → Bool
      → Result Thrown String
  unfolding send_register_data_transaction
  create_anchor_and_submit_service provider statements type context with_public_info = do
    throw_if (is_empty statements) (
        error
          "Create the statement in the column on the left before submitting the anchor transaction.")
    anchor ← create_anchor (record {
      context = context;
      claims = get_subject_claims statements type;
      public_info = with_public_info;
    })
    send send_transaction provider anchor

  -- The hash of an earlier anchor is dropped before anything is sent, but not if no wallet is
  -- connected.
  unfoldable pub create_anchor_and_submit :
      {Address H : Type 0}
      → (String → Result Thrown H)
      → Option Provider
      → List (TopLevelStatement A Address)
      → SubjectClaimsType
      → C
      → Bool
      → Anchoring H
      → Anchoring H
  create_anchor_and_submit from_hex_string none statements type context info s = record s {
    submission_result = some connect_first;
  }
  create_anchor_and_submit from_hex_string (some provider) statements type context info s =
      elim (create_anchor_and_submit_service provider statements type context info) [
        | err e ↦ record { submission_result = some (failed e); transaction_hash = none }
        | ok hash ↦ elim (from_hex_string hash) [
          | err e ↦ record { submission_result = some (failed e); transaction_hash = none }
          | ok h ↦ record { submission_result = some (completed hash); transaction_hash = some h }
        ]
      ]
