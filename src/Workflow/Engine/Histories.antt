-- ===== src/Workflow/Engine/Histories.antt =====
-- The histories of the workflows, src/domain/workflow/instance.js, as verifyWorkflow of
-- src/application/workflow/workflowService.js reads them.
use Prim.Native.String.{String}
use oncall_backend_private.Prelude.{
  ℕ, zero, suc, ◌≡◌, refl, sym, subst, true, List, [], ◌∷◌, ◌++◌, arith, string_key, nat_key,
  pair_key, same_refl,
}
use oncall_backend_private.Workflow.Instance.{Entry, drop}
use oncall_backend_private.Workflow.Engine.Calls.{gaps, discontinuities, last_to}

-- The history leads from a state, without a gap, to a state.
abbrev pub IsChain : String → List Entry → String → Type 0
IsChain from [] to = from ≡ to
IsChain from (h ∷ hs) to = (h.from ≡ from) × IsChain h.to hs to

abbrev pub IsHistory : List Entry → String → Type 0
IsHistory [] to = Unit
IsHistory (h ∷ hs) to = IsChain h.to hs to

IsChain-append :
    (from : String) (hs : List Entry) (h : Entry)
    → IsChain from hs h.from
    → IsChain from (hs ++ h ∷ []) h.to
IsChain-append from [] h c = (sym c, refl)
IsChain-append from (g ∷ hs) h (s, c) = (s, IsChain-append g.to hs h c)

pub IsHistory-append :
    (hs : List Entry) (h : Entry) → IsHistory hs h.from → IsHistory (hs ++ h ∷ []) h.to
IsHistory-append [] h c = refl
IsHistory-append (g ∷ hs) h c = IsChain-append g.to hs h c

IsChain-IsHistory : (from to : String) (hs : List Entry) → IsChain from hs to → IsHistory hs to
IsChain-IsHistory from to [] c = tt
IsChain-IsHistory from to (h ∷ hs) (s, c) = c

pub IsHistory-drop :
    (n : ℕ) (hs : List Entry) (to : String) → IsHistory hs to → IsHistory (drop n hs) to
unfolding drop
IsHistory-drop zero hs to c = c
IsHistory-drop (suc n) [] to c = tt
IsHistory-drop (suc n) (h ∷ hs) to c = IsHistory-drop n hs to (IsChain-IsHistory h.to to hs c)

IsChain-gaps :
    (n : ℕ) (from to : String) (hs : List Entry) → IsChain from hs to → gaps n from hs ≡ []
unfolding gaps
IsChain-gaps n from to [] c = refl
IsChain-gaps n from to (h ∷ hs) (s, c) = ground (
  arith,
  subst (λ x. string_key.same h.from x ≡ true) s (same_refl h.from),
  IsChain-gaps (suc n) h.to to hs c,
)

IsChain-last : (from to : String) (hs : List Entry) → IsChain from hs to → last_to from hs ≡ to
unfolding last_to
IsChain-last from to [] c = c
IsChain-last from to (h ∷ hs) (s, c) = IsChain-last h.to to hs c

pub IsHistory-discontinuities :
    (hs : List Entry) (to : String) → IsHistory hs to → discontinuities hs ≡ []
unfolding discontinuities
IsHistory-discontinuities [] to c = refl
IsHistory-discontinuities (h ∷ hs) to c = IsChain-gaps 1 h.to to hs c

pub IsHistory-last : (hs : List Entry) (to : String) → IsHistory hs to → last_to to hs ≡ to
unfolding last_to
IsHistory-last [] to c = refl
IsHistory-last (h ∷ hs) to c = IsChain-last h.to to hs c
