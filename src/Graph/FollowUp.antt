-- ===== src/Graph/FollowUp.antt =====
-- `is_follow_up` of app/graph/nodes.py. Python's `lower` is a parameter.
use mathlib.Core.List.{reverse}
use agentic_rag_claude_code.Prelude.{
  Bool, true, false, ◌&&◌, ◌||◌, List, [], ◌∷◌, Text, String, codes, length, is_empty, leb,
  if◌then◌else◌, starts_with, one_of,
}
use agentic_rag_claude_code.Characters.{CharTable, strip, strip_chars}

abbrev pub refers_back : List String
refers_back =
    "es" ∷ "dazu" ∷ "davon" ∷ "darüber" ∷ "damit" ∷ "dort" ∷ "dies" ∷ "diese" ∷ "dieser" ∷ "dieses"
    ∷ "denen" ∷ "mehr" ∷ "it" ∷ "that" ∷ "this" ∷ "those" ∷ "they" ∷ "there" ∷ "more" ∷ []

abbrev pub follow_up_openers : List String
follow_up_openers = "und " ∷ "and " ∷ "what about" ∷ "was ist mit" ∷ "wie ist es mit" ∷ "auch " ∷ []

abbrev pub opens_with : Text → List String → Bool
opens_with t [] = false
opens_with t (s ∷ ss) = starts_with t (codes s) || opens_with t ss

-- `q.split()`, the word in hand reversed
split_words : CharTable → Text → Text → List Text
split_words table word [] = if is_empty word then [] else reverse word ∷ []
split_words table word (c ∷ t) =
    let cut = split_words table [] t in
    let grow = split_words table (c ∷ word) t in
    if table.is_space c then (if is_empty word then cut else reverse word ∷ cut) else grow

abbrev punctuation : Text
punctuation = codes "?!.,;:\"'„“”()"

stripped_words : List Text → List Text
unfolding strip_chars
stripped_words [] = []
stripped_words (w ∷ ws) =
    let word = strip_chars punctuation w in
    let rest = stripped_words ws in if is_empty word then rest else word ∷ rest

any_refers_back : List Text → Bool
any_refers_back [] = false
any_refers_back (w ∷ ws) = one_of w refers_back || any_refers_back ws

unfoldable pub is_follow_up : CharTable → (Text → Text) → Text → Bool
unfolding split_words stripped_words any_refers_back strip
is_follow_up table lower question =
    let q = lower (strip table question) in
    let words = stripped_words (split_words table [] q) in
    if leb (length words) 3 || opens_with q follow_up_openers
    then true
    else leb (length words) 8 && any_refers_back words
