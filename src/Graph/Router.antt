-- ===== src/Graph/Router.antt =====
-- app/router/classifier.py: `IntentRouter.classify` over the label that the model gave. `none` is
-- a label that is no text, and any failure of the model.
use agentic_rag_claude_code.Prelude.{ap, Bool-cases}
use agentic_rag_claude_code.Prelude.{
  ◌≡◌, refl, false, Option, none, some, Text, codes, text_eq, text_eq→eq, is_empty, if◌then◌else◌,
  arith, ◌⊎◌, inl, inr,
}
use agentic_rag_claude_code.Characters.{CharTable, strip}
use agentic_rag_claude_code.Graph.State.{
  Intent, text, visual, metadata, multi_doc, IntentSource, llm, fallback,
}

pub record RouterDecision : Type 0 where
  pub intent : Intent
  pub source : IntentSource

abbrev pub fallback_decision : RouterDecision
fallback_decision = record { intent = text; source = fallback }

-- the closed set INTENTS
abbrev pub label : Intent → Text
label text = codes "text"
label visual = codes "visual"
label metadata = codes "metadata"
label multi_doc = codes "multi_doc"

pub intent_of : Text → Option Intent
intent_of raw =
    if text_eq raw (label text)
    then some text
    else if text_eq raw (label visual)
    then some visual
    else if text_eq raw (label metadata)
    then some metadata
    else if text_eq raw (label multi_doc)
    then some multi_doc
    else none

decision_of : Option Intent → RouterDecision
decision_of none = fallback_decision
decision_of (some intent) = record { intent = intent; source = llm }

validated : Option Text → RouterDecision
unfolding decision_of intent_of
validated none = fallback_decision
validated (some raw) = decision_of (intent_of raw)

unfoldable pub classify : CharTable → (Text → Option Text) → Text → RouterDecision
unfolding validated
classify table route_intent query =
    if is_empty (strip table query) then fallback_decision else validated (route_intent query)

intent_of-label : (i : Intent) → intent_of (label i) ≡ some i
unfolding intent_of
intent_of-label text = refl
intent_of-label visual = refl
intent_of-label metadata = refl
intent_of-label multi_doc = refl

intent_of_sound : (raw : Text) (i : Intent) → intent_of raw ≡ some i → raw ≡ label i
unfolding intent_of
intent_of_sound raw i h = ground (
  arith,
  text_eq→eq raw (label text),
  text_eq→eq raw (label visual),
  text_eq→eq raw (label metadata),
  text_eq→eq raw (label multi_doc),
)

-- Where the query is not blank and the model gives the label of an intent, that intent is the decision.
pub classify-label :
    (table : CharTable) (route_intent : Text → Option Text) (query : Text) (i : Intent)
    → is_empty (strip table query) ≡ false
    → route_intent query ≡ some (label i)
    → classify table route_intent query ≡ record { intent = i; source = llm }
unfolding classify
classify-label table route_intent query i speaks e = rw (speaks, e, intent_of-label i) refl

decision_of_sound :
    (raw : Text) (o : Option Intent)
    → intent_of raw ≡ o
    → (decision_of o ≡ fallback_decision) ⊎ (raw ≡ label (decision_of o).intent)
unfolding decision_of
decision_of_sound raw none e = inl refl
decision_of_sound raw (some i) e = inr (intent_of_sound raw i e)

validated_sound :
    (o : Option Text) → (validated o ≡ fallback_decision) ⊎ (o ≡ some (label (validated o).intent))
unfolding validated
validated_sound none = inl refl
validated_sound (some raw) = elim (decision_of_sound raw (intent_of raw) refl) [
  | inl e ↦ inl e
  | inr e ↦ inr (ap some e)
]

-- Whatever the model answers, the decision is the text fallback, or the query is not blank and the
-- model gave exactly the label of the decision's intent.
classify_sound :
    (table : CharTable) (route_intent : Text → Option Text) (query : Text)
    → (classify table route_intent query ≡ fallback_decision)
      ⊎ ((is_empty (strip table query) ≡ false)
          × (route_intent query ≡ some (label (classify table route_intent query).intent)))
unfolding classify
classify_sound table route_intent query = elim (Bool-cases (is_empty (strip table query))) [
  | inl blank ↦ inl (rw blank refl)
  | inr speaks ↦
      rw speaks
        (elim (validated_sound (route_intent query)) [ inl e ↦ inl e | inr e ↦ inr (refl, e) ])
]
