-- ===== src/Lib.antt =====
-- Concordium Web3 ID: the logic of its TypeScript programs.
--
-- Seven programs are modelled, each in a tree of modules.
--   * Registry: test-tools/issuer-front-end/src/writing_to_blockchain.ts, the functions that send
--     transactions to the credential registry contract. `create_new_issuer` stands for
--     `createNewIssuer` and so on; each returns the transaction or what the function throws.
--   * Explorer: the proof explorer, test-tools/proof-explorer/src. Statements is the state of
--     components/ProofExplorer.tsx that the buttons change; Issuers and Tags are `parseIssuers` and
--     the tags of services/credential-provider-services.tsx; Builders is
--     components/statements/Web3IdStatementBuilders.tsx, AccountForms is AccountStatementBuilders.tsx
--     and Display is StatementDisplay.tsx beside it; Claims turns the statements into the
--     claims of the two flows; Anchor is services/anchor-service.tsx and its caller; Submit is
--     `submitProof` of services/verification-service-v1.tsx and verification-service.tsx with the
--     messages and their buttons; Details is the dialog components/ProofDetails.tsx, drawn as rows
--     from JSON values, with the errors that drawing throws; Wallet
--     and Browser are services/wallet-connection.ts, and Thrown what its calls throw; Providers is
--     the page's choice between the two, Page the forms of its columns, Right the column on the
--     right, and Flow the V1 flow over the whole page. A statement
--     is built, its claims are anchored on chain, and a proof of them is asked of the wallet and
--     judged.
--   * IssuerApp: issuer-front-end/src. Schema is `addAttribute` of
--     CreateSchemaAndMetadataFiles.tsx and Files that page with the files that it saves; Steps is
--     Root.tsx with SelectNetwork.tsx, Balance and Shell are the account and what Main.tsx draws;
--     Deploy is DeployCredentialContract.tsx, what it draws included, with `createNewIssuer` of
--     writing_to_blockchain.ts.
--   * Verifier: services/web3id-verifier-ts/src. Arguments is the parsing of main.ts and the
--     client's settings, Server the handler of `POST /v0/verify` with its error handling.
--   * SomeVerifier: the example verifier, examples/some-verifier/frontend/src. Proofs is
--     `connectWallet` and `requestProof` of lib/util.ts, Hash is its `hash`, Removal is
--     components/RemoveVerification.tsx, Page is components/Verify.tsx, what it draws included, with
--     `concordiumProvider` of components/App.tsx, Logins is components/Issuer.tsx over SomeIssuer's
--     `request_credential`.
--   * TestTool: the page of the test tool, test-tools/issuer-front-end/src/Main.tsx. Hex is
--     `hexToBytes`, Attributes the form with the attributes of a credential, Register the four
--     buttons that add a credential to the wallet and register it by Registry's `issue_credential`,
--     Backend is api_calls_to_backend.ts, Contract is reading_from_blockchain.ts with the input of
--     the contract's index, Buttons the buttons that call one of Registry's functions, Entry the
--     button that reads a credential's entry, Account the account and the status of transactions,
--     Fields the inputs that only set a text. View is what the page draws of all their states, with
--     the handler of each input and button.
--   * SomeIssuer: the example issuer, examples/some-issuer/frontend/src. Issuance is
--     `requestCredential` of shared/util.ts with the status of shared/Layout/Layout.tsx, Toast the
--     toast of shared/StatusToast that shows it, Discord the logins of discord/App/App.tsx and
--     telegram/App.tsx.
-- Common has what they share: lists, results, JavaScript strings (whose length counts UTF-16 code
-- units), JSON values, objects, and the elements that a page draws. Numbers is the runtime's number
-- parsing. Examples runs the theorems at concrete inputs.
--
-- A component's state is a record with one field per `useState` or instance field; a handler is a
-- function on it, and a session is a list of events that is run in order. A call that may throw
-- returns a `Result`. What the web SDK, the wallet, the node, `fetch`, `JSON.parse`, `BigInt`,
-- `new URL` and the like return is an argument of the definitions; nothing is assumed of these
-- functions except where a theorem says so. An asynchronous call appears as the event or the result
-- with which it ends. All recursion is on lists and texts, except that a number is rounded to a
-- double with a fixed fuel of 1100 halvings (Numbers), more than the 971 that the largest finite
-- double takes. The one loop without a bound, the example issuer's wait for a transaction, runs over
-- the list of the node's answers, one for each round.
--
-- Not modelled: styles, the arrangement of the pages and what is printed on the console, the Rust
-- services, the smart contract and the bots. A page is drawn as a list of rows or elements where its
-- code decides what stands there; of CreateSchemaAndMetadataFiles.tsx, RemoveVerification.tsx and
-- Web3IdStatementBuilders.tsx only the states and the handlers are modelled, with the values that the
-- sets are drawn with, and of the verifier's command line only how its options are parsed.
pub mod Common
pub mod Numbers
pub mod Registry
pub mod Explorer
pub mod IssuerApp
pub mod Verifier
pub mod SomeVerifier
pub mod TestTool
pub mod SomeIssuer
pub mod Examples
