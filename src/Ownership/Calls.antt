-- ===== src/Ownership/Calls.antt =====
-- Programs that run on the tensors that a history of calls left.
use nx_iree.Base.{ℕ, ◌≡◌, some, List, [], ◌∷◌, Text}
use nx_iree.Machine.{Ptr, null, Tensor, World}
use nx_iree.Machine.Post.{Safe}
use nx_iree.Api.{Api}
use nx_iree.Call.Obliging.{Obliging}
use nx_iree.Erlang.{Env}
use nx_iree.Nif.Program.{call_nif}
use nx_iree.Nif.Runs.{CallArguments, Lists, call_nif-Lists}
use mathlib.Core.Option
use nx_iree.Base.Int.{negsuc}
use nx_iree.Erlang.{hal_device, tensor}
use nx_iree.Nif.Tensors.{read_buffer_nif}
use nx_iree.Nif.Results.{AnswersBytes, tensor_term}
use nx_iree.Nif.Terms.{get_list}
use nx_iree.Nif.Program.{dispatch}
use nx_iree.Call.Moves.{times}
use nx_iree.Base.{codes, ◌⊎◌, ◌≢◌}
use nx_iree.Machine.{M, ok}
use nx_iree.Ownership.Persistence.{Releases}
use nx_iree.Ownership.Live.{AllLive, AllLive-AllInputs}
use nx_iree.Ownership.Histories.{History, History-IsOwned}

-- After any history of calls, `call_io` and `call_cpu` with arguments that can be read and
-- inputs that have a host copy or a view answer `ok` and a list of `n` terms, by no fault and
-- no exception, on a library without CUDA whose calls all succeed, whose views have as many
-- dimensions as their rank, and whose main function returns `n` values.
pub History-call_nif :
    (api : Api) (e : Env) (n : ℕ) (a0 a1 a2 a3 a4 : e.Term) (vm device : Ptr) (name : Text)
    (bytecode : List ℕ) (inputs : List Ptr) (w : World)
    → History api e w
    → Obliging api n
    → CallArguments e a0 a1 a2 a3 a4 vm device name bytecode inputs
    → AllLive w inputs
    → Safe (λ r v. Lists api e n r) (λ x v. ⊥) (call_nif api e a0 a1 a2 a3 a4 w)
History-call_nif api e n a0 a1 a2 a3 a4 vm device name bytecode inputs w h o a live =
    call_nif-Lists api e n a0 a1 a2 a3 a4 vm device name bytecode inputs w o a
      (AllLive-AllInputs w (History-IsOwned api e w h) inputs live)

-- The members but the pointer.
abbrev bare : Tensor → Tensor
bare t = record t { data_ptr = null }

module _ (api : Api) (e : Env) where
  open e use {Term}

  -- A call that runs a program on the tensor at `p`, which gives its view away.
  abbrev pub Lends : Text → List Term → Ptr → Type 0
  Lends name args p =
      ((name ≡ codes "call_io") ⊎ (name ≡ codes "call_cpu"))
      × (a0 : Term) × (a1 : Term) × (a2 : Term) × (a3 : Term) × (a4 : Term) × (inputs : List Ptr)
      × (args ≡ a0 ∷ a1 ∷ a2 ∷ a3 ∷ a4 ∷ [])
      × (get_list e (e.get_resource tensor) a4 ≡ some inputs)
      × (times p inputs ≢ 0)

  -- Calls of exported functions, each run to its end, that do not deallocate the tensor at `p`
  -- and run no program on it.
  pub data Resting (p : Ptr) (w : World) : World → Type 0 where
    begin : Resting p w w
    next :
        {u v : World} {m : M Term} {term : Term} (name : Text) (args : List Term)
        → Resting p w u
        → dispatch api e name args ≡ some m
        → ¬ Releases e name args p
        → ¬ Lends name args p
        → m u ≡ ok term v
        → Resting p w v

  -- The term of the tensor `t`, whose data can be read after any such calls.
  abbrev pub Lasting : World → Ptr → Term → Tensor → Type 0
  Lasting v p term t =
      (v.tensors p ≡ some t)
      × (term ≡ tensor_term api e p t)
      × ((u : World) (reader : Ptr) (b0 b1 b2 : Term)
          → Resting p v u
          → e.get_resource hal_device b0 ≡ some reader
          → e.get_resource tensor b1 ≡ some p
          → e.get_int64 b2 ≡ some (negsuc 0)
          → Safe (λ a x. AnswersBytes api e reader t a) (λ x w. ⊥)
              (read_buffer_nif api e b0 b1 b2 u))

  abbrev pub AllLasting : World → List Ptr → List Term → List Tensor → Type 0
  AllLasting v [] terms ts = (terms ≡ []) × (ts ≡ [])
  AllLasting v (p ∷ ps) terms [] = ⊥
  AllLasting v (p ∷ ps) terms (t ∷ ts) =
      (x : Term) × (xs : List Term) × (terms ≡ x ∷ xs) × Lasting v p x t × AllLasting v ps xs ts
