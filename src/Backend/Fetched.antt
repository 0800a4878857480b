-- ===== src/Backend/Fetched.antt =====
-- Which note is judged, and what a failed fetch becomes
-- (src/dodeal_ai/units/structured_intelligence/pipeline.py, `_fetch_note`).
use do_deal_ai.Prelude.{
  ℕ, ◌≡◌, ◌⊎◌, ◌≢◌, inl, inr, refl, Bool, true, false, Option, none, some, List, [], ◌∷◌, arith,
  Bool-cases, ◌==◌, ==→eq, Fallible, err, ok,
}
use do_deal_ai.Errors.{DodealError, note_not_found}
use do_deal_ai.Resilience.{gather_first_wins}
use do_deal_ai.Backend.{
  ReadError, LeadNote, matching, backend_errors, as_dodeal, or_not_found, second_page, from_page,
  after_reads, fetch_note,
}

-- The note is on the page under this id.
abbrev pub OnPage : LeadNote → ℕ → List LeadNote → Type 0
OnPage note note_id [] = ⊥
OnPage note note_id (n ∷ notes) =
    ((note ≡ n) × (n.id ≡ note_id)) ⊎ ((n.id ≢ note_id) × OnPage note note_id notes)

-- No note of the page has this id.
abbrev pub NotOnPage : ℕ → List LeadNote → Type 0
NotOnPage note_id [] = Unit
NotOnPage note_id (n ∷ notes) = (n.id ≢ note_id) × NotOnPage note_id notes

abbrev Found : ℕ → List LeadNote → Option LeadNote → Type 0
Found note_id notes none = NotOnPage note_id notes
Found note_id notes (some note) = OnPage note note_id notes

matching-Found :
    (notes : List LeadNote) (note_id : ℕ) → Found note_id notes (matching notes note_id)
unfolding matching
matching-Found [] note_id = tt
matching-Found (n ∷ notes) note_id = elim (Bool-cases (n.id == note_id)) [
  | inl e ↦ rw e (inl (refl, ==→eq n.id note_id e))
  | inr e ↦ rw e (later (matching notes note_id) (matching-Found notes note_id) (λ h. ground arith))
]
  where
    later :
        (found : Option LeadNote)
        → Found note_id notes found
        → n.id ≢ note_id
        → Found note_id (n ∷ notes) found
    later none h differs = (differs, h)
    later (some note) h differs = inr (differs, h)

module _ {L : Type 0} (note_id : ℕ) (lead : Fallible ReadError L)
    (notes : Fallible ReadError (List LeadNote)) (time_left : Bool)
    (reread : Fallible ReadError (List LeadNote)) where
  -- How a fetch can end.
  pub data Fetched : Fallible DodealError (L × LeadNote) → Type 0 where
    lead_failed : (e : ReadError) → lead ≡ err e → Fetched (err (backend_errors e))
    notes_failed :
        (l : L) (e : ReadError) → lead ≡ ok l → notes ≡ err e → Fetched (err (backend_errors e))
    on_first :
        (l : L) (page : List LeadNote) (note : LeadNote)
        → lead ≡ ok l
        → notes ≡ ok page
        → OnPage note note_id page
        → Fetched (ok (l, note))
    out_of_time :
        (page : List LeadNote)
        → notes ≡ ok page
        → NotOnPage note_id page
        → time_left ≡ false
        → Fetched (err note_not_found)
    reread_failed :
        (page : List LeadNote) (e : ReadError)
        → notes ≡ ok page
        → NotOnPage note_id page
        → time_left ≡ true
        → reread ≡ err e
        → Fetched (err (backend_errors e))
    on_second :
        (l : L) (page again : List LeadNote) (note : LeadNote)
        → lead ≡ ok l
        → notes ≡ ok page
        → NotOnPage note_id page
        → time_left ≡ true
        → reread ≡ ok again
        → OnPage note note_id again
        → Fetched (ok (l, note))
    on_neither :
        (page again : List LeadNote)
        → notes ≡ ok page
        → NotOnPage note_id page
        → time_left ≡ true
        → reread ≡ ok again
        → NotOnPage note_id again
        → Fetched (err note_not_found)

  second :
      (l : L) (page again : List LeadNote) (found : Option LeadNote)
      → lead ≡ ok l
      → notes ≡ ok page
      → NotOnPage note_id page
      → time_left ≡ true
      → reread ≡ ok again
      → Found note_id again found
      → Fetched (or_not_found l found)
  second l page again none a b c d e h = on_neither page again b c d e h
  second l page again (some note) a b c d e h = on_second l page again note a b c d e h

  again_read :
      (l : L) (page : List LeadNote) (r : Fallible ReadError (List LeadNote))
      → lead ≡ ok l
      → notes ≡ ok page
      → NotOnPage note_id page
      → time_left ≡ true
      → reread ≡ r
      → Fetched (second_page note_id l (as_dodeal r))
  again_read l page (err e) a b c d h = reread_failed page e b c d h
  again_read l page (ok again) a b c d h =
      second l page again (matching again note_id) a b c d h (matching-Found again note_id)

  if_time :
      (l : L) (page : List LeadNote) (left : Bool)
      → lead ≡ ok l
      → notes ≡ ok page
      → NotOnPage note_id page
      → time_left ≡ left
      → Fetched (from_page note_id left reread l none)
  if_time l page true a b c h = again_read l page reread a b c h refl
  if_time l page false a b c h = out_of_time page b c h

  first :
      (l : L) (page : List LeadNote) (found : Option LeadNote)
      → lead ≡ ok l
      → notes ≡ ok page
      → Found note_id page found
      → Fetched (from_page note_id time_left reread l found)
  first l page none a b h = if_time l page time_left a b h refl
  first l page (some note) a b h = on_first l page note a b h

  by_reads :
      (x : Fallible ReadError L) (y : Fallible ReadError (List LeadNote))
      → lead ≡ x
      → notes ≡ y
      → Fetched (after_reads note_id time_left reread (as_dodeal (gather_first_wins x y)))
  unfolding gather_first_wins
  by_reads (err e) y a b = lead_failed e a
  by_reads (ok l) (err e) a b = notes_failed l e a b
  by_reads (ok l) (ok page) a b =
      first l page (matching page note_id) a b (matching-Found page note_id)

  -- Every end of a fetch. A failed lead read is what the caller is told, whatever the notes' read did;
  -- then a failed read of the notes. A note that is judged is the first on its page with the id that
  -- was asked for: of the first page, or, where no note there has the id and time is left, of the page
  -- read again. The note is reported missing only where the first page has no note of the id and there
  -- is no time left or the second has none either.
  pub fetch_note-Fetched : Fetched (fetch_note note_id lead notes time_left reread)
  unfolding fetch_note
  fetch_note-Fetched = by_reads lead notes refl refl
