-- ===== src/Ring/Tests.antt =====
-- The ring at concrete states, among them one whose bytes go round the end of the buffer.
use mmotcpfighter.Base.{◌+◌, ◌-◌, ◌/◌, ◌≡◌, refl, [], ◌∷◌, arith, ok}
use mmotcpfighter.Memory.{Block, bytes, of_list}
use mmotcpfighter.Ring.{Ring, actual_size, get_use_size, enqueue}
use mmotcpfighter.Ring.Valid.{IsValid, contents}
use mmotcpfighter.Ring.Queue
use mmotcpfighter.Ring.Queue.{put, get, look}
use mmotcpfighter.Ring.Refine.{enqueue_refines, run, run_refines}

-- Two bytes, 7 and 8, at the last position and the first.
abbrev wrapped : Ring
wrapped = record {
  out_pos = 10000;
  in_pos = 1;
  buffer = record { size = actual_size; byte = λ i. 7 + (10000 - i) / 10000 };
}

wrapped-IsValid : IsValid wrapped
wrapped-IsValid = omega arith

abbrev source : Block
source = of_list (1 ∷ 2 ∷ 3 ∷ [])

contents-wrapped : contents wrapped ≡ 7 ∷ 8 ∷ []
unfolding get_use_size
contents-wrapped = refl

enqueue_refines_example :
    (r' : Ring) × (enqueue wrapped source 3
      ≡ ok ((Queue.push (contents wrapped) (bytes source 0 3)).0, r'))
    × IsValid r'
    × (contents r' ≡ (Queue.push (contents wrapped) (bytes source 0 3)).1)
enqueue_refines_example = enqueue_refines source 3 wrapped-IsValid (omega arith)

run_refines_example :
    run wrapped (put (1 ∷ 2 ∷ 3 ∷ []) ∷ look 4 ∷ get 5 ∷ get 1 ∷ [])
    ≡ ok ((3, []) ∷ (4, 7 ∷ 8 ∷ 1 ∷ 2 ∷ []) ∷ (5, 7 ∷ 8 ∷ 1 ∷ 2 ∷ 3 ∷ []) ∷ (0, []) ∷ [])
unfolding Queue.run get_use_size
run_refines_example =
    run_refines (put (1 ∷ 2 ∷ 3 ∷ []) ∷ look 4 ∷ get 5 ∷ get 1 ∷ []) wrapped-IsValid
