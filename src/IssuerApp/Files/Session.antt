-- ===== src/IssuerApp/Files/Session.antt =====
-- The files that issuer-front-end/src/CreateSchemaAndMetadataFiles.tsx saves over whole sessions.
use concordium_web3id.Common.{
  ◌∙◌, ◌≡◌, ◌≢◌, String, Bool, true, false, some, List, [], ◌∷◌, ◌++◌, refl, arith, Result, ok, err,
  All, All-append, is_some, get_last?, get_last?-append_one,
}
use concordium_web3id.IssuerApp.Schema.{Page, remove_spaces, add_attribute}
use concordium_web3id.IssuerApp.Schema.Invariant.{
  lookup, HasSingleKeys, IsWellFormed, empty_page-IsWellFormed, add_attribute-IsWellFormed,
}
use concordium_web3id.IssuerApp.Files.{
  CredentialMetadata, SchemaHead, example_schema_head, File, credential_schema, credential_metadata,
  issuer_metadata, Files, initial, attribute_added, submit_attribute, submit_schema, cleaned,
  submit_metadata, submit_issuer, handle_close, Event, attribute_submitted, attributes_cleared,
  schema_submitted, metadata_submitted, issuer_submitted, closed, reopened, react, react_all,
}

react_all-append :
    (us vs : List Event) (f : Files) → react_all (us ++ vs) f ≡ react_all vs (react_all us f)
react_all-append [] vs f = refl
react_all-append (u ∷ us) vs f = react_all-append us vs (react u f)

-- Neither the credential's metadata are submitted nor the page is left.
abbrev pub KeepsMetadata : Event → Type 0
KeepsMetadata (metadata_submitted saving m) = ⊥
KeepsMetadata reopened = ⊥
KeepsMetadata _ = Unit

attribute_added-metadata :
    (r : Result String Page) (f : Files) → (attribute_added r f).metadata ≡ f.metadata
unfolding attribute_added
attribute_added-metadata (ok p) f = refl
attribute_added-metadata (err t) f = refl

react-metadata : (v : Event) (f : Files) → KeepsMetadata v → (react v f).metadata ≡ f.metadata
unfolding react submit_attribute submit_schema submit_issuer handle_close
react-metadata (attribute_submitted t d r y) f h = attribute_added-metadata _ f
react-metadata attributes_cleared f h = refl
react-metadata (schema_submitted saving s) f h = ground arith
react-metadata (metadata_submitted saving m) f h = absurd h
react-metadata (issuer_submitted saving m) f h = ground arith
react-metadata closed f h = refl
react-metadata reopened f h = absurd h

react_all-metadata :
    (vs : List Event) (f : Files) → All KeepsMetadata vs → (react_all vs f).metadata ≡ f.metadata
react_all-metadata [] f h = refl
react_all-metadata (v ∷ vs) f h = react_all-metadata vs (react v f) h.1 ∙ react-metadata v f h.0

submit_metadata-metadata :
    (saving : Bool) (m : CredentialMetadata) (f : Files)
    → (submit_metadata saving m f).metadata ≡ cleaned m
unfolding submit_metadata
submit_metadata-metadata false m f = refl
submit_metadata-metadata true m f = refl

-- In every session, the file that "Download credential metadata" saves has what was submitted last
-- before, with the "Create" or the "Download" button of that form, whatever the form now has; between
-- the two neither is that form submitted nor the page left.
pub download_saves_previous :
    (us vs : List Event) (saving : Bool) (before now : CredentialMetadata)
    → All KeepsMetadata vs
    → let f = react_all (us ++ metadata_submitted saving before ∷ vs) initial in
      get_last? (react (metadata_submitted true now) f).saved
      ≡ some (credential_metadata (cleaned before))
unfolding react submit_metadata
download_saves_previous us vs saving before now h =
    let f = react_all us initial in
    let g = react (metadata_submitted saving before) f in
    let kept : (react_all vs g).metadata ≡ cleaned before =
      react_all-metadata vs g h ∙ submit_metadata-metadata saving before f in
    rw (react_all-append us (metadata_submitted saving before ∷ vs) initial) (
      rw
        (get_last?-append_one (react_all vs g).saved
          (credential_metadata (react_all vs g).metadata))
        (rw kept refl))

-- A saved schema has no key twice, it requires only keys of its properties, and its head is the
-- example's; of the other files nothing is asked.
abbrev pub IsSound : File → Type 0
IsSound (credential_schema head properties required) =
    HasSingleKeys properties
    × All (λ r. is_some (lookup r properties) ≡ true) required
    × (head ≡ example_schema_head)
IsSound (credential_metadata m) = Unit
IsSound (issuer_metadata m) = Unit

-- The attributes are not cleared, neither by the button nor by leaving the page, and none has the key
-- `__proto__`, which an assignment does not make a key of an object.
abbrev pub KeepsAttributes : Event → Type 0
KeepsAttributes (attribute_submitted title description is_required type) =
    remove_spaces title ≢ "__proto__"
KeepsAttributes attributes_cleared = ⊥
KeepsAttributes reopened = ⊥
KeepsAttributes _ = Unit

record IsValid (f : Files) : Type 0 where
  pub schema : IsWellFormed f.schema
  pub head : f.head ≡ example_schema_head
  pub saved : All IsSound f.saved

attribute_added-IsValid :
    (r : Result String Page) (f : Files)
    → IsValid f
    → ((q : Page) → r ≡ ok q → IsWellFormed q)
    → IsValid (attribute_added r f)
unfolding attribute_added
attribute_added-IsValid (ok q) f h w = record { schema = w q refl; head = h.head; saved = h.saved }
attribute_added-IsValid (err title) f h w = record {
  schema = h.schema;
  head = h.head;
  saved = h.saved;
}

submit_schema-IsValid :
    (saving : Bool) (entered : SchemaHead) (f : Files)
    → IsValid f
    → IsValid (submit_schema saving entered f)
unfolding submit_schema
submit_schema-IsValid false entered f h = record {
  schema = h.schema;
  head = h.head;
  saved = h.saved;
}
submit_schema-IsValid true entered f h = record {
  schema = h.schema;
  head = h.head;
  saved =
      All-append IsSound f.saved _ h.saved
        ((rw h.schema.same h.schema.single, rw h.schema.same h.schema.known, h.head), tt);
}

-- A file without a schema is saved, or none.
append_one-IsValid :
    (f g : Files) (file : File)
    → IsValid f
    → IsSound file
    → g.schema ≡ f.schema
    → g.head ≡ f.head
    → g.saved ≡ f.saved ++ file ∷ []
    → IsValid g
append_one-IsValid f g file h sound schema head saved = record {
  schema = rw schema h.schema;
  head = head ∙ h.head;
  saved = rw saved (All-append IsSound f.saved (file ∷ []) h.saved (sound, tt));
}

react-IsValid : (v : Event) (f : Files) → KeepsAttributes v → IsValid f → IsValid (react v f)
unfolding react submit_attribute submit_metadata submit_issuer handle_close
react-IsValid (attribute_submitted t d r y) f k h =
    attribute_added-IsValid (add_attribute t d r y f.schema) f h
      (λ q e. add_attribute-IsWellFormed t d r y f.schema h.schema e)
react-IsValid attributes_cleared f k h = absurd k
react-IsValid (schema_submitted saving s) f k h = submit_schema-IsValid saving s f h
react-IsValid (metadata_submitted false m) f k h = record {
  schema = h.schema;
  head = h.head;
  saved = h.saved;
}
react-IsValid (metadata_submitted true m) f k h =
    append_one-IsValid f _ (credential_metadata f.metadata) h tt refl refl refl
react-IsValid (issuer_submitted false m) f k h = record {
  schema = h.schema;
  head = h.head;
  saved = h.saved;
}
react-IsValid (issuer_submitted true m) f k h =
    append_one-IsValid f _ (issuer_metadata f.issuer) h tt refl refl refl
react-IsValid closed f k h = record { schema = h.schema; head = h.head; saved = h.saved }
react-IsValid reopened f k h = absurd k

react_all-IsValid :
    (vs : List Event) (f : Files) → All KeepsAttributes vs → IsValid f → IsValid (react_all vs f)
react_all-IsValid [] f k h = h
react_all-IsValid (v ∷ vs) f k h = react_all-IsValid vs (react v f) k.1 (react-IsValid v f k.0 h)

-- In every session that does not clear the attributes, stays on the page and submits no attribute
-- whose title without spaces is `__proto__`, the attributes and the
-- schema agree and every schema that was saved has no key twice and requires only keys that it has;
-- its name, description and id are the example's, whatever was entered for them.
pub saved_schemas-IsSound :
    (vs : List Event)
    → All KeepsAttributes vs
    → let f = react_all vs initial in IsWellFormed f.schema × All IsSound f.saved
saved_schemas-IsSound vs k =
    let h =
      react_all-IsValid vs initial k
        (record { schema = empty_page-IsWellFormed; head = refl; saved = tt }) in
    (h.schema, h.saved)
