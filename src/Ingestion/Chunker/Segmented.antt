-- ===== src/Ingestion/Chunker/Segmented.antt =====
-- `build_chunks_v2` of app/ingestion/chunker.py against the segments of its elements.
use mathlib.Core.List.{append_assoc, append-nil}
use agentic_rag_claude_code.Prelude.{
  Bool, true, false, not, Option, none, some, List, [], ◌∷◌, ◌++◌, Text, ◌≡◌, ◌≢◌, refl, sym, ap,
  subst, ◌∙◌, All, All-append, text_eq, text_eq→eq, if◌then◌else◌, two_tests, some-injective, arith,
}
use agentic_rag_claude_code.Settings.{Settings}
use agentic_rag_claude_code.Characters.{CharTable}
use agentic_rag_claude_code.Ingestion.Elements.{
  ParsedElement, ChunkData, Writing, is_text, is_table,
}
use agentic_rag_claude_code.Ingestion.Texts.{section_of, chunk_text_run}
use agentic_rag_claude_code.Ingestion.Tables.{chunk_table}
use agentic_rag_claude_code.Ingestion.Chunker.{
  caption_hint, visual_chunk, option_eq, Builder, flush, add_text, add_visual, add_element,
  add_elements, number_from, build_chunks_v2,
}
use agentic_rag_claude_code.Ingestion.Chunker.Segments.{
  Segment, visual, elements_of, IsIn, AreSegments, text_above, chunks_of, close, closes, segments,
}

option_eq→eq : (a b : Option Text) → option_eq a b ≡ true → a ≡ b
option_eq→eq none none h = refl
option_eq→eq none (some b) h = cc
option_eq→eq (some a) none h = cc
option_eq→eq (some a) (some b) h = ap some (text_eq→eq a b h)

text_eq_refl : (a : Text) → text_eq a a ≡ true
text_eq_refl [] = refl
text_eq_refl (c ∷ a) = ground (arith, text_eq_refl a)

option_eq_refl : (a : Option Text) → option_eq a a ≡ true
option_eq_refl none = refl
option_eq_refl (some a) = text_eq_refl a

elements_of-close :
    (run : List ParsedElement) (ss : List Segment)
    → elements_of (close run ++ ss) ≡ run ++ elements_of ss
elements_of-close [] ss = refl
elements_of-close (el ∷ run) ss = refl

elements_of-segments : (run els : List ParsedElement) → elements_of (segments run els) ≡ run ++ els
elements_of-segments [] [] = refl
elements_of-segments (r ∷ run) [] = refl
elements_of-segments run (el ∷ els) =
    two_tests
      (λ b c.
        elements_of (
          if b
          then (if c then close run ++ segments (el ∷ []) els else segments (run ++ el ∷ []) els)
          else close run ++ visual el ∷ segments [] els)
        ≡ run ++ el ∷ els)
      (is_text el.kind) (closes el run)
      (λ h k.
        elements_of-close run (segments (el ∷ []) els)
        ∙ ap (λ l. run ++ l) (elements_of-segments (el ∷ []) els))
      (λ h k. elements_of-segments (run ++ el ∷ []) els ∙ append_assoc run (el ∷ []) els)
      (λ h.
        elements_of-close run (visual el ∷ segments [] els)
        ∙ ap (λ l. run ++ el ∷ l) (elements_of-segments [] els))

-- A run is a text segment of its own, after a segment of the section `before`.
abbrev IsFresh : Option (Option Text) → List ParsedElement → Type 0
IsFresh before [] = before ≡ none
IsFresh before (r ∷ run) = before ≢ some r.section_title

abbrev section_before : List ParsedElement → Option (Option Text)
section_before [] = none
section_before (r ∷ run) = some r.section_title

close-AreSegments :
    (before : Option (Option Text)) (run : List ParsedElement) (ss : List Segment)
    → All (IsIn (section_of run)) run
    → IsFresh before run
    → AreSegments (section_before run) ss
    → AreSegments before (close run ++ ss)
close-AreSegments before [] ss h f k = subst (λ b. AreSegments b ss) (sym f) k
close-AreSegments before (r ∷ run) ss h f k = (refl, h, f, k)

closes-IsFresh :
    (el : ParsedElement) (run : List ParsedElement)
    → closes el run ≡ true
    → IsFresh (section_before run) (el ∷ [])
closes-IsFresh el [] h = λ e. cc
closes-IsFresh el (r ∷ run) h = λ e. apart (some-injective _ _ e)
  where
    apart : r.section_title ≡ el.section_title → ⊥
    apart e = absurd (cc (h, option_eq_refl el.section_title, e))

joined-IsIn :
    (el : ParsedElement) (run : List ParsedElement)
    → is_text el.kind ≡ true
    → closes el run ≡ false
    → All (IsIn (section_of run)) run
    → All (IsIn (section_of (run ++ el ∷ []))) (run ++ el ∷ [])
joined-IsIn el [] h k a = ((h, refl), tt)
joined-IsIn el (r ∷ run) h k a = All-append (IsIn r.section_title) (r ∷ run) (el ∷ []) a (
  (
    h,
    option_eq→eq el.section_title r.section_title
        (same (option_eq el.section_title r.section_title) k),
  ),
  tt,
)
  where
    same : (b : Bool) → not b ≡ false → b ≡ true
    same true e = refl
    same false e = cc

joined-IsFresh :
    (before : Option (Option Text)) (el : ParsedElement) (run : List ParsedElement)
    → IsFresh before run
    → IsFresh before (run ++ el ∷ [])
joined-IsFresh before el [] f = λ e. cc
joined-IsFresh before el (r ∷ run) f = f

segments-AreSegments :
    (before : Option (Option Text)) (run els : List ParsedElement)
    → All (IsIn (section_of run)) run
    → IsFresh before run
    → AreSegments before (segments run els)
segments-AreSegments before run [] h f =
    subst (AreSegments before) (append-nil (close run)) (close-AreSegments before run [] h f tt)
segments-AreSegments before run (el ∷ els) h f =
    two_tests
      (λ b c. AreSegments before (
        if b
        then (if c then close run ++ segments (el ∷ []) els else segments (run ++ el ∷ []) els)
        else close run ++ visual el ∷ segments [] els))
      (is_text el.kind) (closes el run)
      (λ k c. close-AreSegments before run (segments (el ∷ []) els) h f (
        segments-AreSegments (section_before run) (el ∷ []) els ((k, refl), tt)
          (closes-IsFresh el run c)))
      (λ k c.
        segments-AreSegments before (run ++ el ∷ []) els (joined-IsIn el run k c h)
          (joined-IsFresh before el run f))
      (λ k.
        close-AreSegments before run (visual el ∷ segments [] els) h f
          (k, segments-AreSegments none [] els tt refl))

text_above-append :
    (above : Option ParsedElement) (run : List ParsedElement) (el : ParsedElement)
    → text_above above (run ++ el ∷ []) ≡ some el
text_above-append above [] el = refl
text_above-append above (r ∷ run) el = text_above-append (some r) run el

module _ (t : CharTable) (s : Settings) (v : Writing) where
  abbrev visual_chunks : Option ParsedElement → ParsedElement → List ChunkData
  visual_chunks above el =
      let hint = caption_hint t v above in
      if is_table el.kind then chunk_table s v el hint else visual_chunk t v el hint ∷ []

  abbrev builder : Option ParsedElement → List ChunkData → List ParsedElement → Builder
  builder above out run = record { out = out; run = run; last_text = text_above above run }

  abbrev built : Builder → List ParsedElement → List ChunkData
  built b els = (flush t s v (add_elements t s v b els)).out

  -- The builder after an element, where the run has an element before it.
  abbrev after_texts :
      Option ParsedElement
      → List ChunkData
      → List ParsedElement
      → ParsedElement
      → Bool
      → Bool
      → Builder
  after_texts above out run el is_text closes =
      let closed = out ++ chunk_text_run t s v run in
      let before =
        if closes
        then record { out = closed; run = []; last_text = text_above above run }
        else builder above out run in
      if is_text
      then record before { run = before.run ++ el ∷ []; last_text = some el }
      else builder none (closed ++ visual_chunks (text_above above run) el) []

  add_elements_lem :
      (above : Option ParsedElement) (out : List ChunkData) (run els : List ParsedElement)
      → built (builder above out run) els ≡ out ++ chunks_of t s v above (segments run els)
  unfolding flush add_elements add_element add_text add_visual
  add_elements_lem above out [] [] = sym (append-nil out)
  add_elements_lem above out (r ∷ run) [] =
      ap (λ l. out ++ l) (sym (append-nil (chunk_text_run t s v (r ∷ run))))
  add_elements_lem above out [] (el ∷ els) =
      two_tests
        (λ b c.
          built
            (if b
              then builder above out (el ∷ [])
              else builder none (out ++ visual_chunks above el) [])
            els
          ≡ out
            ++ chunks_of t s v above
                (if b then segments (el ∷ []) els else visual el ∷ segments [] els))
        (is_text el.kind) true (λ h k. add_elements_lem above out (el ∷ []) els)
        (λ h k. add_elements_lem above out (el ∷ []) els)
        (λ h.
          add_elements_lem none (out ++ visual_chunks above el) [] els
          ∙ append_assoc out (visual_chunks above el) (chunks_of t s v none (segments [] els)))
  add_elements_lem above out (r ∷ run) (el ∷ els) =
      two_tests
        (λ b c.
          built (after_texts above out (r ∷ run) el b c) els
          ≡ out
            ++ chunks_of t s v above (
                if b
                then if c
                  then close (r ∷ run) ++ segments (el ∷ []) els
                  else segments (r ∷ run ++ el ∷ []) els
                else close (r ∷ run) ++ visual el ∷ segments [] els))
        (is_text el.kind) (closes el (r ∷ run))
        (λ h k.
          add_elements_lem (text_above above (r ∷ run)) (out ++ chunk_text_run t s v (r ∷ run))
            (el ∷ []) els
          ∙ append_assoc out (chunk_text_run t s v (r ∷ run))
              (chunks_of t s v (text_above above (r ∷ run)) (segments (el ∷ []) els)))
        (λ h k.
          subst
            (λ a.
              built (record { out = out; run = r ∷ run ++ el ∷ []; last_text = a }) els
              ≡ out ++ chunks_of t s v above (segments (r ∷ run ++ el ∷ []) els))
            (text_above-append above (r ∷ run) el)
            (add_elements_lem above out (r ∷ run ++ el ∷ []) els))
        (λ h.
          add_elements_lem none
            ((out ++ chunk_text_run t s v (r ∷ run))
              ++ visual_chunks (text_above above (r ∷ run)) el)
            [] els
          ∙ append_assoc (out ++ chunk_text_run t s v (r ∷ run))
              (visual_chunks (text_above above (r ∷ run)) el)
              (chunks_of t s v none (segments [] els))
          ∙ append_assoc out (chunk_text_run t s v (r ∷ run)) (
              visual_chunks (text_above above (r ∷ run)) el
              ++ chunks_of t s v none (segments [] els)))

  -- The elements are split, in their order, into runs of texts of one section, each as long as it can be,
  -- and the elements of the other kinds. The chunks are those of the runs and of the other elements one
  -- after the other, each of the latter with the text directly above it as the hint of its caption, and
  -- are numbered from zero.
  pub build_chunks_v2-AreSegments :
      (els : List ParsedElement)
      → (ss : List Segment) × (elements_of ss ≡ els)
        × AreSegments none ss
        × (build_chunks_v2 t s v els ≡ number_from 0 (chunks_of t s v none ss))
  unfolding build_chunks_v2
  build_chunks_v2-AreSegments els = (
    segments [] els,
    elements_of-segments [] els,
    segments-AreSegments none [] els tt refl,
    ap (λ l. number_from 0 l) (add_elements_lem none [] [] els),
  )
