-- ===== src/Ownership/Live.antt =====
-- The tensors that may be handed to a program.
use nx_iree.Base.{◌≡◌, ◌≢◌, ◌⊎◌, inl, inr, some, List, [], ◌∷◌, arith}
use nx_iree.Machine.{Ptr, null, Tensor, World}
use nx_iree.Machine.Ledger.{view_disposed}
use nx_iree.Call.Moves.{times}
use nx_iree.Call.Obliging.{IsInput, AllInputs}
use nx_iree.Ownership.Heap.{Owned}

-- A tensor at `p` that may stand before the inputs `ps`: it has a host copy and no view, or it has
-- a view of which no reference was dropped or given away, and it is not given again.
abbrev pub Live : World → Ptr → List Ptr → Type 0
Live w p ps =
    (t : Tensor) × (w.tensors p ≡ some t)
    × (((t.data_ptr ≢ null) × (t.buffer_view ≡ null))
        ⊎ ((t.buffer_view ≢ null) × (view_disposed t.buffer_view w.trace ≡ 0) × (times p ps ≡ 0)))

abbrev pub AllLive : World → List Ptr → Type 0
AllLive w [] = Unit {0}
AllLive w (p ∷ ps) = Live w p ps × AllLive w ps

module _ (w : World) (h : Owned w) where
  Live-IsInput : (p : Ptr) (ps : List Ptr) → Live w p ps → IsInput w.tensors w.blocks p
  Live-IsInput p ps (t, here, inl copied) =
      let (b, held, len) = h.held p t here copied.0 in
      record { tensor = t; here = here; readable = inr (b, held, copied.0, omega (arith, len)) }
  Live-IsInput p ps (t, here, inr viewed) = record {
    tensor = t;
    here = here;
    readable = inl viewed.0;
  }

  pub AllLive-AllInputs : (ps : List Ptr) → AllLive w ps → AllInputs w.tensors w.blocks ps
  AllLive-AllInputs [] l = tt
  AllLive-AllInputs (p ∷ ps) (l, ls) = (Live-IsInput p ps l, AllLive-AllInputs ps ls)
