-- ===== src/Api/Keys/Separate.antt =====
-- The keys of `WorkflowInputKey` (api/workflow_input.go) keep parallel runs apart.
use Prim.Native.String.{◌++◌, count}
use text.Mathlib.TextLemmas.{append_inj, length-append, append-nil, append_cancel_left}
use durablefuture.Prelude.{◌≡◌, ap, sym, ◌∙◌, ℕ, String, arith, suc, ◌+◌}
use durablefuture.Api.Keys.{workflow_input_key}

key-append : (f i : String) → workflow_input_key f i ≡ f ++ ("/" ++ i)
unfolding workflow_input_key
key-append f i = ap (λ t. f ++ ("/" ++ t)) (append-nil i)

one : (n : ℕ) → 1 + n ≡ suc n
one n = omega arith

count-key : (f i : String) → count (workflow_input_key f i) ≡ count f + suc (count i)
count-key f i =
    ap count (key-append f i)
    ∙ length-append f ("/" ++ i)
    ∙ ap (λ n. count f + n) (length-append "/" i ∙ one (count i))

-- Two workflows whose ids have the same length, as UUIDs do, share a key only if they have the same
-- function name and the same id.
pub workflow_input_key-injective :
    (f g i j : String)
    → count i ≡ count j
    → workflow_input_key f i ≡ workflow_input_key g j
    → (f ≡ g) × (i ≡ j)
workflow_input_key-injective f g i j h e =
    let same : count f ≡ count g =
      omega (arith, sym (count-key f i) ∙ ap count e ∙ count-key g j, h) in
    let (fg, rest) = append_inj (sym (key-append f i) ∙ e ∙ key-append g j) same in
    (fg, append_cancel_left "/" i j rest)
