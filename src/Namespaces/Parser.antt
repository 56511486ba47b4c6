-- ===== src/Namespaces/Parser.antt =====
-- internal/services/namespaces/parser.go: the namespaces that a user typed or pasted. A text is its
-- code points. The decoders of JSON and YAML and the Kubernetes name test are a record.
pub mod Classify
pub mod Tokens
mod Tests
use kubepeep.Base.{
  ℕ, suc, ◌+◌, Bool, true, false, not, ◌&&◌, ◌||◌, Option, none, some, List, [], ◌∷◌, ◌++◌, leb,
  ltb, ◌==◌, if◌then◌else◌, same_text, length, is_between, strip, codes, String,
}

abbrev pub Text : Type 0
Text = List ℕ

abbrev pub has_text : Text → List Text → Bool
has_text t [] = false
has_text t (s ∷ ss) = same_text s t || has_text t ss

abbrev pub is_empty : Text → Bool
is_empty [] = true
is_empty (c ∷ s) = false

-- Unicode white space, which `strings.TrimSpace` cuts.
unfoldable pub is_space : ℕ → Bool
is_space c =
    is_between 9 13 c
    || c == 0x20
    || c == 0x85
    || c == 0xA0
    || c == 0x1680
    || is_between 0x2000 0x200A c
    || is_between 0x2028 0x2029 c
    || c == 0x202F
    || c == 0x205F
    || c == 0x3000

pub trim_left : (ℕ → Bool) → Text → Text
trim_left p [] = []
trim_left p (c ∷ s) = let rest = trim_left p s in if p c then rest else c ∷ s

pub trim_right : (ℕ → Bool) → Text → Text
trim_right p [] = []
trim_right p (c ∷ s) = let rest = trim_right p s in if p c && is_empty rest then [] else c ∷ rest

pub trim : (ℕ → Bool) → Text → Text
unfolding trim_left trim_right
trim p s = trim_right p (trim_left p s)

unfoldable pub trim_space : Text → Text
unfolding trim is_space
trim_space s = trim is_space s

pub record InvalidNamespace : Type 0 where
  pub input : Text
  pub code : String

-- `Existence` is constant here.
pub record ValidationReport : Type 0 where
  pub valid : List Text
  pub valid_count : ℕ
  pub duplicate_count : ℕ
  pub discarded_empty_count : ℕ
  pub invalid : List InvalidNamespace
  pub invalid_count : ℕ

pub data ParseError : Type 0 where
  body_too_large invalid_input namespace_limit : ParseError

pub data Result {ℓ} (A : Type ℓ) : Type ℓ where
  ok : A → Result A
  err : ParseError → Result A

abbrev pub max_namespace_entries : ℕ
max_namespace_entries = 10000

abbrev pub max_scope_body_bytes : ℕ
max_scope_body_bytes = 1048576

abbrev pub bind {ℓ κ} : {A : Type ℓ} {B : Type κ} → Result A → (A → Result B) → Result B
bind (ok a) f = f a
bind (err e) f = err e

-- A node of a YAML document. Of the kinds, the mapping, the sequence, the scalar and the alias matter.
pub data NodeKind : Type 0 where
  document_node mapping_node sequence_node scalar_node alias_node : NodeKind

mutual
  pub data Node : Type 0 where
    node : NodeKind → Text → Text → Text → Bool → Nodes → Node

  pub data Nodes : Type 0 where
    end : Nodes
    also : Node → Nodes → Nodes

pub data JsonToken : Type 0 where
  open_brace close_brace : JsonToken
  text_token : Text → JsonToken
  other_token : JsonToken

-- `json.Decoder` at a rest of the input: its next token, whether there is more, the array of strings
-- that it decodes (`none` inside is a null), and whether only the end is left. `yaml.Decoder` gives
-- the document, and whether only the end is left after it.
pub record Libraries : Type 0 where
  pub token : Text → Option (JsonToken × Text)
  pub more : Text → Bool
  pub decode_strings : Text → Option (Option (List Text) × Text)
  pub at_end : Text → Bool
  pub decode_yaml : Text → Option (Node × Bool)
  pub is_dns1123_label : Text → Bool

mutual
  pub has_forbidden_yaml_syntax : Node → Bool
  has_forbidden_yaml_syntax (node alias_node tag value anchor tagged children) = true
  has_forbidden_yaml_syntax (node kind tag value anchor tagged children) =
      not (is_empty anchor) || tagged || any_forbidden children

  pub any_forbidden : Nodes → Bool
  any_forbidden end = false
  any_forbidden (also n rest) = has_forbidden_yaml_syntax n || any_forbidden rest

is_text_scalar : NodeKind → Text → Bool
is_text_scalar scalar_node tag = same_text tag (codes "!!str")
is_text_scalar _ tag = false

-- The values of a sequence of text scalars.
yaml_string_sequence : Nodes → Result (List Text)
unfolding is_text_scalar
yaml_string_sequence end = ok []
yaml_string_sequence (also (node kind tag value anchor tagged children) rest) =
    let later = yaml_string_sequence rest in
    if is_text_scalar kind tag then bind later (λ items. ok (value ∷ items)) else err invalid_input

yaml_items : Node → Result (List Text)
unfolding yaml_string_sequence is_text_scalar
yaml_items (node sequence_node tag value anchor tagged children) = yaml_string_sequence children
yaml_items
      (node mapping_node tag value anchor tagged
        (also (node k t v a g c) (also (node sequence_node t' v' a' g' items) end))) =
    if is_text_scalar k t && same_text v (codes "namespaces")
    then yaml_string_sequence items
    else err invalid_input
yaml_items _ = err invalid_input

yaml_root : Node → Result (List Text)
unfolding has_forbidden_yaml_syntax yaml_items
yaml_root (node document_node tag value anchor tagged (also root end)) =
    if has_forbidden_yaml_syntax root then err invalid_input else yaml_items root
yaml_root _ = err invalid_input

-- `splitStructural`: the segments between commas, semicolons and line feeds.
abbrev pub is_structural : ℕ → Bool
is_structural c = c == b',' || c == b';' || c == 10

push_first : ℕ → List Text → List Text
push_first c [] = (c ∷ []) ∷ []
push_first c (segment ∷ segments) = (c ∷ segment) ∷ segments

pub split_by : (ℕ → Bool) → Text → List Text
unfolding push_first
split_by p [] = [] ∷ []
split_by p (c ∷ s) = let rest = split_by p s in if p c then [] ∷ rest else push_first c rest

drop_empty : List Text → List Text
drop_empty [] = []
drop_empty (s ∷ ss) = let rest = drop_empty ss in if is_empty s then rest else s ∷ rest

abbrev pub is_blank : ℕ → Bool
is_blank c = c == 32 || c == 9

-- `strings.FieldsFunc`.
fields : Text → List Text
unfolding split_by drop_empty
fields s = drop_empty (split_by is_blank s)

-- Each "\r\n" and then each "\r" left is one line feed.
pub normalize_lines : Text → Text
normalize_lines [] = []
normalize_lines (c ∷ []) = (if c == 13 then 10 else c) ∷ []
normalize_lines (c ∷ d ∷ s) =
    let paired = 10 ∷ normalize_lines s in
    let single = (if c == 13 then 10 else c) ∷ normalize_lines (d ∷ s) in
    if c == 13 && d == 10 then paired else single

segment_items : Text → List Text
unfolding trim fields
segment_items segment =
    let trimmed = trim is_blank segment in if is_empty trimmed then [] ∷ [] else fields trimmed

all_items : List Text → List Text
unfolding segment_items
all_items [] = []
all_items (segment ∷ segments) = segment_items segment ++ all_items segments

pub tokenize_text : Text → List Text
unfolding normalize_lines split_by all_items
tokenize_text input = all_items (split_by is_structural (normalize_lines input))

pub empty_report : ValidationReport
empty_report = record {
  valid = [];
  valid_count = 0;
  duplicate_count = 0;
  discarded_empty_count = 0;
  invalid = [];
  invalid_count = 0;
}

module _ (libraries : Libraries) where
  open libraries use {token, more, decode_strings, at_end, decode_yaml, is_dns1123_label}

  pub valid_namespace_name : Text → Bool
  valid_namespace_name name = not (same_text name (codes "*")) && is_dns1123_label name

  add_name : Text → ValidationReport → ValidationReport
  unfolding valid_namespace_name
  add_name item r =
      if valid_namespace_name item then record r { valid = r.valid ++ item ∷ [] } else record r {
        invalid = r.invalid ++ record { input = item; code = "INVALID_NAMESPACE_NAME" } ∷ [];
      }

  note_item : List Text → Text → ValidationReport → ValidationReport
  unfolding add_name
  note_item seen name r =
      if is_empty name
      then record r { discarded_empty_count = r.discarded_empty_count + 1 }
      else if has_text name seen
      then record r { duplicate_count = r.duplicate_count + 1 }
      else add_name name r

  note_seen : List Text → Text → List Text
  note_seen seen name =
      if not (is_empty name) && not (has_text name seen) then name ∷ seen else seen

  -- The loop over the items, with the names seen.
  classify_loop : List Text → ValidationReport → List Text → ValidationReport
  unfolding note_item note_seen trim_space
  classify_loop seen r [] = r
  classify_loop seen r (item ∷ items) =
      let name = trim_space item in
      classify_loop (note_seen seen name) (note_item seen name r) items

  pub classify_items : List Text → ValidationReport
  unfolding classify_loop empty_report
  classify_items items =
      let r = classify_loop [] empty_report items in
      record r { valid_count = length r.valid; invalid_count = length r.invalid }

  decoded : Option (Option (List Text) × Text) → Result (List Text × Text)
  decoded none = err invalid_input
  decoded (some (none, rest)) = err invalid_input
  decoded (some (some items, rest)) = ok (items, rest)

  require_end : List Text × Text → Result (List Text)
  require_end (items, rest) = if at_end rest then ok items else err invalid_input

  is_close : Option (JsonToken × Text) → Option Text
  is_close (some (close_brace, rest)) = some rest
  is_close _ = none

  -- The object's one key. A second key is refused whatever it is.
  close_object : List Text × Text → Result (List Text)
  unfolding require_end is_close
  close_object (items, rest) =
      if more rest then err invalid_input else elim (is_close (token rest)) [
        | none ↦ err invalid_input
        | some after ↦ require_end (items, after)
      ]

  object_key : Option (JsonToken × Text) → Result (List Text)
  unfolding decoded close_object
  object_key (some (text_token name, rest)) =
      if same_text name (codes "namespaces")
      then bind (decoded (decode_strings rest)) close_object
      else err invalid_input
  object_key _ = err invalid_input

  -- An object without a key fails at its end, since no `namespaces` was seen.
  parse_object : Option (JsonToken × Text) → Result (List Text)
  unfolding object_key
  parse_object (some (open_brace, rest)) =
      if more rest then object_key (token rest) else err invalid_input
  parse_object _ = err invalid_input

  abbrev has_prefix : String → Text → Bool
  has_prefix p s = elim (strip (codes p) s) [ none ↦ false | some rest ↦ true ]

  parse_json_items : Text → Result (List Text)
  unfolding decoded require_end parse_object
  parse_json_items input =
      if has_prefix "[" input
      then bind (decoded (decode_strings input)) require_end
      else parse_object (token input)

  parse_yaml_items : Text → Result (List Text)
  unfolding yaml_root
  parse_yaml_items input = elim (decode_yaml input) [
    | none ↦ err invalid_input
    | some (document, only) ↦ if only then yaml_root document else err invalid_input
  ]

  pub parse_namespace_list : List Text → Result ValidationReport
  unfolding classify_items
  parse_namespace_list items =
      if ltb max_namespace_entries (length items)
      then err namespace_limit
      else ok (classify_items items)

  -- The format is the first that fits, and a failure in it is final.
  pub parse_format : Text → Result (List Text)
  unfolding parse_json_items parse_yaml_items tokenize_text
  parse_format trimmed =
      if has_prefix "[" trimmed || has_prefix "{" trimmed
      then parse_json_items trimmed
      else if has_prefix "---" trimmed
          || has_prefix "namespaces:" trimmed
          || has_prefix "- " trimmed
      then parse_yaml_items trimmed
      else ok (tokenize_text trimmed)

  trim_bom : Text → Text
  trim_bom [] = []
  trim_bom (c ∷ s) = if c == 0xFEFF then s else c ∷ s

  -- The input is its length in bytes, and its text if it is UTF-8.
  pub parse_raw_input : ℕ → Option Text → Result ValidationReport
  unfolding parse_format parse_namespace_list classify_items trim_bom
  parse_raw_input bytes raw =
      if ltb max_scope_body_bytes bytes then err body_too_large else elim raw [
        | none ↦ err invalid_input
        | some text ↦
            let trimmed = trim_space (trim_bom (trim_space text)) in
            if is_empty trimmed
            then ok (classify_items [])
            else bind (parse_format trimmed) parse_namespace_list
      ]
