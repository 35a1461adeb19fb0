-- ===== src/Discovery/Resources.antt =====
-- Resources of the ontology: api/ontology/ontology.go, ToDiscoveryResource and ToOntologyResource of
-- api/discovery/discovery.go.
use Prim.Native.String.{String, ◌++◌ as str_append}
use clouditor.Prelude.{Option, none, some, List, [], ◌∷◌, ◌++◌, map, ◌==◌, if◌then◌else◌}
use clouditor.Status.{Error, Result, ok, err, panic, plain, wrapped}

-- The value of a field of a message, of any other type than the two that are looked at.
pub data Value : Type 0 where
  text : String → Value
  texts : List String → Value
  other : Value

-- What protobuf says of messages: R is a resource, M any message, A an Any.
pub record Messages (A M R : Type 0) : Type 0 where
  pub id : R → String
  pub raw : R → String
  -- the extension resource_type_names of the message's options
  pub resource_type_names : R → Option (List String)
  -- the fields of the message's descriptor, with their values
  pub fields : R → List (String × Value)
  pub pack : R → Result A
  pub unmarshal_new : A → Result M
  pub as_resource : M → Option R

pub record Resource (A : Type 0) : Type 0 where
  pub id : String
  pub cloud_service_id : String
  pub resource_type : String
  pub properties : A

pub record Relationship : Type 0 where
  pub property : String
  pub value : String

abbrev pub err_not_ontology_resource : Error
err_not_ontology_resource = plain "protobuf message is not a valid ontology resource"

-- strings.CutSuffix
unfoldable pub cut_suffix : String → String → Option String
cut_suffix String.[] suffix = if "" == suffix then some "" else none
cut_suffix (String.◌∷◌ c s) suffix =
    let rest = cut_suffix s suffix in
    if String.◌∷◌ c s == suffix
    then some ""
    else elim rest [ none ↦ none | some before ↦ some (String.◌∷◌ c before) ]

-- strings.Join(…, ",")
unfoldable pub join_types : List String → String
join_types [] = ""
join_types (t ∷ []) = t
join_types (t ∷ u ∷ rest) = str_append t (str_append "," (join_types (u ∷ rest)))

abbrev relationship : String → String → Relationship
relationship property value = record { property = property; value = value }

unfoldable pub relations_of : Option String → Value → List Relationship
relations_of none value = []
relations_of (some property) (text v) = if v == "" then [] else relationship property v ∷ []
relations_of (some property) (texts vs) = map (relationship property) vs
relations_of (some property) other = []

unfoldable pub related_fields : List (String × Value) → List Relationship
unfolding relations_of cut_suffix
related_fields [] = []
related_fields ((name, value) ∷ fields) =
    relations_of (cut_suffix name "_id") value ++ related_fields fields

abbrev or_nil : Option (List String) → List String
or_nil none = []
or_nil (some types) = types

module _ {A M R : Type 0} (messages : Messages A M R) where
  unfoldable pub related : R → List Relationship
  unfolding related_fields
  related r = related_fields (messages.fields r)

  unfoldable pub resource_types : R → List String
  resource_types r = or_nil (messages.resource_type_names r)

  unfoldable pub resource_with : R → String → A → Resource A
  unfolding resource_types join_types
  resource_with resource cs_id a = record {
    id = messages.id resource;
    cloud_service_id = cs_id;
    resource_type = join_types (resource_types resource);
    properties = a;
  }

  unfoldable pub converted : R → String → Result A → Result (Resource A)
  unfolding resource_with
  converted resource cs_id (ok a) = ok (resource_with resource cs_id a)
  converted resource cs_id (err e) = err (wrapped "could not convert protobuf structure" e)
  converted resource cs_id panic = panic

  unfoldable pub to_discovery_resource : R → String → Result (Resource A)
  unfolding converted
  to_discovery_resource resource cs_id = converted resource cs_id (messages.pack resource)

  unfoldable pub as_ontology_resource : M → Result R
  as_ontology_resource m = elim (messages.as_resource m) [
    | some resource ↦ ok resource
    | none ↦ err err_not_ontology_resource
  ]

  unfoldable pub to_ontology_resource : Resource A → Result R
  unfolding as_ontology_resource
  to_ontology_resource r = elim (messages.unmarshal_new r.properties) [
    | ok m ↦ as_ontology_resource m
    | err e ↦ err e
    | panic ↦ panic
  ]
