-- ===== src/Namespaces/Parser/Tests.antt =====
-- Concrete lists of names for internal/services/namespaces/parser.go.
use kubepeep.Base.{◌≡◌, refl, true, false, none, List, [], ◌∷◌, codes}
use kubepeep.Namespaces.Parser.{Text, Libraries, classify_items, tokenize_text, empty_report}
use kubepeep.Namespaces.Parser.Classify.{AreNames, classify_items_idem}
use kubepeep.Namespaces.Parser.Tokens.{tokenize_text-join_commas}

-- Decoders that fail, and a name test that refuses the empty name only.
abbrev plain : Libraries
plain = record {
  token = λ s. none;
  more = λ s. false;
  decode_strings = λ s. none;
  at_end = λ s. true;
  decode_yaml = λ s. none;
  is_dns1123_label = λ s. true;
}

abbrev items : List Text
items = codes " payments" ∷ codes "" ∷ codes "*" ∷ codes "payments" ∷ codes "ops" ∷ []

classify_items_idem_example :
    let r = classify_items plain items in
    AreNames plain [] r.valid
    × (classify_items plain r.valid
        ≡ record empty_report { valid = r.valid; valid_count = r.valid_count })
classify_items_idem_example = classify_items_idem plain items

valid_names : (classify_items plain items).valid ≡ codes "payments" ∷ codes "ops" ∷ []
unfolding classify_items
valid_names = refl

tokenize_text-join_commas_example :
    tokenize_text (codes "payments,ops") ≡ codes "payments" ∷ codes "ops" ∷ []
tokenize_text-join_commas_example =
    tokenize_text-join_commas (codes "payments") (codes "ops" ∷ [])
      ((refl, refl), ((refl, refl), tt))
