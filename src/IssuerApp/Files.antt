-- ===== src/IssuerApp/Files.antt =====
-- The page of issuer-front-end/src/CreateSchemaAndMetadataFiles.tsx: its forms, the files that it
-- saves, and the dialog for errors. `handleSubmit` of react-hook-form runs a handler only on data
-- that its validation accepts, so the data of an event are accepted ones. A handler runs with the
-- state of the last render.
pub mod Session
use Prim.Native.String.{◌++◌ as str_append}
use concordium_web3id.Common.{
  String, Bool, true, false, Option, none, some, List, [], ◌∷◌, ◌++◌, Result, ok, err, is_blank,
  if◌then◌else◌,
}
use concordium_web3id.IssuerApp.Schema.{Page, Entries, empty_page, add_attribute, clear_attributes}

pub record CredentialMetadata : Type 0 where
  pub title : String
  pub logo_url : String
  pub background_color : String
  pub image_url : Option String

pub record IssuerMetadata : Type 0 where
  pub name : String
  pub description : String
  pub url : String
  pub icon_url : String

-- `EXAMPLE_CREDENTIAL_METADATA_OBJECT` and `EXAMPLE_ISSUER_METADATA_OBJECT`
abbrev pub example_credential_metadata : CredentialMetadata
example_credential_metadata = record {
  title = "Example Title";
  logo_url = "https://avatars.githubusercontent.com/u/39614219?s=200&v=4";
  background_color = "#92a8d1";
  image_url = none;
}

abbrev pub example_issuer_metadata : IssuerMetadata
example_issuer_metadata = record {
  name = "Concordium";
  description = "A public-layer 1, science-backed blockchain";
  url = "https://concordium.com";
  icon_url = "https://concordium.com/wp-content/uploads/2022/07/Concordium-1.png";
}

-- The part of a credential's schema that its form asks for.
pub record SchemaHead : Type 0 where
  pub name : String
  pub description : String
  pub id : String

abbrev pub example_schema_head : SchemaHead
example_schema_head = record {
  name = "Education certificate";
  description = "Simple representation of an education certificate.";
  id = "https://example-university.com/certificates/JsonSchema2023-education-certificate.json";
}

-- A file that `saveAs` has saved.
pub data File : Type 0 where
  credential_schema : (head : SchemaHead) (properties : Entries) (required : List String) → File
  credential_metadata : CredentialMetadata → File
  issuer_metadata : IssuerMetadata → File

-- The component's state, the saved files, and in `schema` the attributes with the object
-- `EXAMPLE_CREDENTIAL_SCHEMA_OBJECT`, which the component takes as its schema and changes in place.
pub record Files : Type 0 where
  pub head : SchemaHead
  pub schema : Page
  pub metadata : CredentialMetadata
  pub issuer : IssuerMetadata
  pub show_schema : Bool
  pub show_metadata : Bool
  pub show_issuer : Bool
  pub show : Bool
  pub error : Option String
  pub saved : List File

abbrev pub initial : Files
initial = record {
  head = example_schema_head;
  schema = empty_page;
  metadata = example_credential_metadata;
  issuer = example_issuer_metadata;
  show_schema = false;
  show_metadata = false;
  show_issuer = false;
  show = false;
  error = none;
  saved = [];
}

-- The button "Add attribute" with its `catch`.
unfoldable pub attribute_added : Result String Page → Files → Files
attribute_added (ok schema) f = record f { schema = schema }
attribute_added (err title) f = record f {
  error = some (str_append "Duplicate attribute title: \"" (str_append title "\""));
  show = true;
}

unfoldable pub submit_attribute :
    (title description : String) (is_required : Bool) (type : String) → Files → Files
unfolding attribute_added
submit_attribute title description is_required type f =
    attribute_added (add_attribute title description is_required type f.schema) f

-- "Create credential schema", and "Download credential schema" where `saving`: the form's data are
-- not looked at.
unfoldable pub submit_schema : (saving : Bool) → SchemaHead → Files → Files
submit_schema false entered f = record f { show_schema = true }
submit_schema true entered f = record f {
  show_schema = true;
  saved = f.saved ++ credential_schema f.head f.schema.properties f.schema.required ∷ [];
}

-- `if (!data.image?.url) data.image = undefined`
abbrev pub without_blank : Option String → Option String
without_blank none = none
without_blank (some url) = if is_blank url then none else some url

unfoldable pub cleaned : CredentialMetadata → CredentialMetadata
cleaned m = record m { image_url = without_blank m.image_url }

-- The buttons for the metadata of a credential and of the issuer: the file is written from the
-- state, which the update that stands before it changes only for the next render.
unfoldable pub submit_metadata : (saving : Bool) → CredentialMetadata → Files → Files
unfolding cleaned
submit_metadata false m f = record f { metadata = cleaned m; show_metadata = true }
submit_metadata true m f = record f {
  metadata = cleaned m;
  show_metadata = true;
  saved = f.saved ++ credential_metadata f.metadata ∷ [];
}

unfoldable pub submit_issuer : (saving : Bool) → IssuerMetadata → Files → Files
submit_issuer false m f = record f { issuer = m; show_issuer = true }
submit_issuer true m f = record f {
  issuer = m;
  show_issuer = true;
  saved = f.saved ++ issuer_metadata f.issuer ∷ [];
}

-- `handleClose`
unfoldable pub handle_close : Files → Files
handle_close f = record f { show = false }

-- Leaving the page and coming back: a new component over the same schema object.
unfoldable pub reopen : Files → Files
unfolding clear_attributes
reopen f = record initial { schema = clear_attributes f.schema; saved = f.saved }

pub data Event : Type 0 where
  attribute_submitted : (title description : String) (is_required : Bool) (type : String) → Event
  attributes_cleared : Event
  schema_submitted : (saving : Bool) → SchemaHead → Event
  metadata_submitted : (saving : Bool) → CredentialMetadata → Event
  issuer_submitted : (saving : Bool) → IssuerMetadata → Event
  closed : Event
  reopened : Event

unfoldable pub react : Event → Files → Files
unfolding submit_attribute clear_attributes submit_schema submit_metadata submit_issuer handle_close
    reopen
react (attribute_submitted title description is_required type) f =
    submit_attribute title description is_required type f
react attributes_cleared f = record f { schema = clear_attributes f.schema }
react (schema_submitted saving entered) f = submit_schema saving entered f
react (metadata_submitted saving m) f = submit_metadata saving m f
react (issuer_submitted saving m) f = submit_issuer saving m f
react closed f = handle_close f
react reopened f = reopen f

abbrev pub react_all : List Event → Files → Files
react_all [] f = f
react_all (v ∷ vs) f = react_all vs (react v f)
