-- ===== src/Pipeline/Length/Recognised.antt =====
-- Which short notes are known outcomes, and what the gate lets through
-- (src/dodeal_ai/units/structured_intelligence/pipeline.py, `_is_recognised_short_note` and
-- `_length_gate`).
use do_deal_ai.Prelude.{
  ◌≤◌, ◌<◌, ◌≡◌, refl, ap, Bool, true, false, ◌⊎◌, inl, inr, ◌↔◌, ◌≢◌, none, some, List, [], ◌∷◌,
  ◌++◌, String, arith, length, any, all, take, drop, Bool-cases,
}
use text.Mathlib.TextPositions.{eq_refl}
use text.Mathlib.TextEquality.{eq_iff}
use do_deal_ai.Schemas.{insufficient_evidence, not_scorable, SuppressedDetail}
use do_deal_ai.TenantConfig.{TenantConfig}
use do_deal_ai.Pipeline.Length.{
  Text, same_words, has_words, in_table, is_short_note_code, opens_with, is_code_or_filler,
  recognised_words, recognised_short, is_recognised_short_note, below_floor, length_gate,
}

abbrev pub IsIn : String → List String → Type 0
IsIn a [] = ⊥
IsIn a (x ∷ xs) = (a ≡ x) ⊎ IsIn a xs

abbrev pub AllOf : (String → Bool) → List String → Type 0
AllOf p [] = Unit
AllOf p (x ∷ xs) = (p x ≡ true) × AllOf p xs

any-IsIn :
    (p : String → Bool) (xs : List String)
    → any p xs ≡ true
    → (x : String) × IsIn x xs × (p x ≡ true)
any-IsIn p [] h = absurd (cc h)
any-IsIn p (x ∷ xs) h = elim (Bool-cases (p x)) [
  | inl e ↦ (x, inl refl, e)
  | inr e ↦ let (y, i, f) = any-IsIn p xs (ground arith) in (y, inr i, f)
]

IsIn-any :
    (p : String → Bool) (x : String) (xs : List String) → IsIn x xs → p x ≡ true → any p xs ≡ true
IsIn-any p x [] i h = absurd i
IsIn-any p x (y ∷ ys) (inl e) h = rw (← e) (rw h refl)
IsIn-any p x (y ∷ ys) (inr i) h = ground (arith, IsIn-any p x ys i h)

all-AllOf : (p : String → Bool) (xs : List String) → all p xs ≡ true → AllOf p xs
all-AllOf p [] h = tt
all-AllOf p (x ∷ xs) h = (ground arith, all-AllOf p xs (ground arith))

AllOf-all : (p : String → Bool) (xs : List String) → AllOf p xs → all p xs ≡ true
AllOf-all p [] h = refl
AllOf-all p (x ∷ xs) h = ground (arith, AllOf-all p xs h.1)

AllOf-append :
    (p : String → Bool) (xs ys : List String) → AllOf p xs → AllOf p ys → AllOf p (xs ++ ys)
AllOf-append p [] ys h k = k
AllOf-append p (x ∷ xs) ys h k = (h.0, AllOf-append p xs ys h.1 k)

opening_split :
    (words opening : List String)
    → same_words (take words (length opening)) opening ≡ true
    → words ≡ opening ++ drop words (length opening)
opening_split [] [] h = refl
opening_split (w ∷ ws) [] h = refl
opening_split [] (o ∷ os) h = absurd (cc h)
opening_split (w ∷ ws) (o ∷ os) h =
    let e : w ≡ o = (eq_iff w o).0 (ground arith) in
    let r = opening_split ws os (ground arith) in ground (arith, e, r)

opening_found :
    (opening rest : List String)
    → (same_words (take (opening ++ rest) (length opening)) opening ≡ true)
      × (drop (opening ++ rest) (length opening) ≡ rest)
opening_found [] rest = (refl, refl)
opening_found (o ∷ os) rest = let (a, b) = opening_found os rest in (rw (eq_refl o, a) refl, b)

IsIn-append : (x : String) (xs ys : List String) → IsIn x xs → IsIn x (xs ++ ys)
IsIn-append x [] ys i = absurd i
IsIn-append x (y ∷ xs) ys (inl e) = inl e
IsIn-append x (y ∷ xs) ys (inr i) = inr (IsIn-append x xs ys i)

append_regroup : (xs ys zs : List String) → (xs ++ ys) ++ zs ≡ xs ++ (ys ++ zs)
append_regroup [] ys zs = refl
append_regroup (x ∷ xs) ys zs = ap (λ (l : List String). x ∷ l) (append_regroup xs ys zs)

module _ (str : Text) (config : TenantConfig) where
  open str use {casefold, strip, split, len}

  -- A known outcome, as the tables define one: a phrase and fillers after it, or codes, numbers and
  -- fillers of which one at least is a code.
  pub data Outcome (words : List String) : Type 0 where
    phrase_first :
        (phrase : String) (rest : List String)
        → IsIn phrase config.short_note_phrases
        → words ≡ split (casefold phrase) ++ rest
        → AllOf (in_table str config.short_note_fillers) rest
        → Outcome words
    codes_only :
        (code : String)
        → IsIn code words
        → is_short_note_code str config code ≡ true
        → AllOf (is_code_or_filler str config) words
        → Outcome words

  fillers_fit :
      (words : List String)
      → AllOf (in_table str config.short_note_fillers) words
      → AllOf (is_code_or_filler str config) words
  unfolding is_code_or_filler
  fillers_fit [] h = tt
  fillers_fit (w ∷ ws) h = (ground arith, fillers_fit ws h.1)

  opened_parts :
      (words : List String) (phrase : String)
      → opens_with str config words phrase ≡ true
      → (same_words (take words (length (split (casefold phrase)))) (split (casefold phrase))
          ≡ true)
        × (all
              (in_table str config.short_note_fillers)
              (drop words (length (split (casefold phrase))))
            ≡ true)
  unfolding opens_with
  opened_parts words phrase h = ground arith

  found : (words : List String) → recognised_words str config words ≡ true → Outcome words
  unfolding recognised_words
  found [] h = absurd (cc h)
  found (w ∷ ws) h =
      elim (Bool-cases (any (opens_with str config (w ∷ ws)) config.short_note_phrases)) [
        | inl e ↦
            let (phrase, i, o) =
              any-IsIn (opens_with str config (w ∷ ws)) config.short_note_phrases e in
            opened phrase i o
        | inr e ↦
            let (code, i, c) = any-IsIn (is_short_note_code str config) (w ∷ ws) (ground arith) in
            codes_only code i c (all-AllOf (is_code_or_filler str config) (w ∷ ws) (ground arith))
      ]
    where
      opened :
          (phrase : String)
          → IsIn phrase config.short_note_phrases
          → opens_with str config (w ∷ ws) phrase ≡ true
          → Outcome (w ∷ ws)
      opened phrase i o =
          let opening : List String = split (casefold phrase) in
          let (e, f) = opened_parts (w ∷ ws) phrase o in
          phrase_first phrase (drop (w ∷ ws) (length opening)) i (opening_split (w ∷ ws) opening e)
            (all-AllOf (in_table str config.short_note_fillers) (drop (w ∷ ws) (length opening)) f)

  nonempty_opens :
      (words : List String) (phrase : String) (rest : List String)
      → has_words words ≡ true
      → IsIn phrase config.short_note_phrases
      → words ≡ split (casefold phrase) ++ rest
      → AllOf (in_table str config.short_note_fillers) rest
      → recognised_words str config words ≡ true
  unfolding recognised_words opens_with
  nonempty_opens words phrase rest n i e fillers =
      let (a, b) = opening_found (split (casefold phrase)) rest in
      let opens : opens_with str config words phrase ≡ true =
        rw (e, a, b, AllOf-all (in_table str config.short_note_fillers) rest fillers) refl in
      rw (n, IsIn-any (opens_with str config words) phrase config.short_note_phrases i opens) refl

  recognised_nonempty :
      (words : List String) → recognised_words str config words ≡ true → words ≢ []
  unfolding recognised_words
  recognised_nonempty [] h = absurd (cc h)
  recognised_nonempty (w ∷ ws) h = λ e. cc e

  outcome_found :
      (words : List String) → words ≢ [] → Outcome words → recognised_words str config words ≡ true
  unfolding recognised_words
  outcome_found [] n o = absurd (n refl)
  outcome_found (w ∷ ws) n (phrase_first phrase rest i e fillers) =
      nonempty_opens (w ∷ ws) phrase rest refl i e fillers
  outcome_found (w ∷ ws) n (codes_only code i c f) =
      let some_code = IsIn-any (is_short_note_code str config) code (w ∷ ws) i c in
      let all_fit = AllOf-all (is_code_or_filler str config) (w ∷ ws) f in
      ground (arith, some_code, all_fit)

  -- The gate's test of a short note finds exactly the known outcomes: words that are a phrase of the
  -- tenant with nothing but fillers behind it, or that are codes, numbers and fillers with at least one
  -- code; no note without a word is one.
  pub recognised_words_iff :
      (words : List String)
      → (recognised_words str config words ≡ true) ↔ ((words ≢ []) × Outcome words)
  recognised_words_iff words =
      (λ h. (recognised_nonempty words h, found words h), λ h. outcome_found words h.0 h.1)

  -- A known outcome stays one when fillers are added behind it.
  pub Outcome-append :
      (words fillers : List String)
      → AllOf (in_table str config.short_note_fillers) fillers
      → Outcome words
      → Outcome (words ++ fillers)
  Outcome-append words fillers all_fillers (phrase_first phrase rest i e f) =
      phrase_first phrase (rest ++ fillers) i
        (rw e (append_regroup (split (casefold phrase)) rest fillers))
        (AllOf-append (in_table str config.short_note_fillers) rest fillers f all_fillers)
  Outcome-append words fillers all_fillers (codes_only code i c f) =
      codes_only code (IsIn-append code words fillers i) c (
        AllOf-append (is_code_or_filler str config) words fillers f
          (fillers_fit fillers all_fillers))

  -- The gate lets a note through exactly where it is a known short outcome, or is below neither floor
  -- and not over the limit. A note is suppressed for insufficient evidence, as too short, exactly where
  -- it is below a floor and no known outcome; and as not scorable, too long, exactly where it is below
  -- no floor and over the limit.
  pub length_gate_iff :
      (note : String)
      → ((length_gate str config note ≡ none) ↔ (
          (recognised_short str config note ≡ true)
          ⊎ ((config.min_note_chars ≤ len (strip note))
              × (config.min_note_tokens ≤ length (split (strip note)))
              × (len (strip note) ≤ config.max_note_chars))))
        × ((length_gate str config note
              ≡ some (insufficient_evidence, SuppressedDetail.note_too_short))
            ↔ ((below_floor str config (strip note) ≡ true)
                × (recognised_short str config note ≡ false)))
        × ((length_gate str config note ≡ some (not_scorable, SuppressedDetail.note_too_long)) ↔ (
            (below_floor str config (strip note) ≡ false)
            × (config.max_note_chars < len (strip note))))
  unfolding length_gate recognised_short below_floor
  length_gate_iff note = (
    (
      λ h. elim (Bool-cases (is_recognised_short_note str config (strip note))) [
        | inl r ↦ elim (Bool-cases (below_floor str config (strip note))) [
          | inl b ↦ inl (ground arith)
          | inr b ↦ inr (ground arith)
        ]
        | inr r ↦ inr (ground arith)
      ],
      λ h. ground arith,
    ),
    (λ h. ground arith, λ h. ground arith),
    (λ h. ground arith, λ h. ground arith),
  )
