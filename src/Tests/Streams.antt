-- ===== src/Tests/Streams.antt =====
-- Tests and instances of the theorems on the command stream and the descriptor arena.
use onnx_vulkan_rs_edge.Prelude.{
  ℕ, suc, inr, ◌+◌, ◌*◌, ◌≤◌, ◌<◌, ◌≡◌, refl, true, false, [], ◌∷◌, length, arith,
}
use onnx_vulkan_rs_edge.Gpu.Buffer.{GpuBuffer, Memory, destroy_buffer}
use onnx_vulkan_rs_edge.Gpu.Buffer.Ledger.{copy}
use onnx_vulkan_rs_edge.Gpu.Descriptor.{
  DescriptorArena, failed, panicked, set_of, acquire_descriptor_set,
}
use onnx_vulkan_rs_edge.Gpu.Descriptor.Sets.{
  IsArena, given, acquire_descriptor_set-lem, acquire_descriptor_set-after_failure,
}
use onnx_vulkan_rs_edge.Gpu.Stream.{
  StreamState, Caps, Answers, defer_destroy, flush, finish_stream, stream_dispatch_slices,
}
use onnx_vulkan_rs_edge.Gpu.Stream.Bounded.{
  dispatch, submit_open, run, run-below, stream_dispatch_slices-below,
}
use onnx_vulkan_rs_edge.Gpu.Stream.Ledger.{owed, owed-flush, owed-defer_destroy, finish_stream-lem}

abbrev tensor : GpuBuffer
tensor = record { id = 0; size = 256; storage = true }

abbrev other : GpuBuffer
other = record { id = 1; size = 256; storage = true }

abbrev memory : Memory
memory = record { created = 2; storage_pool = []; upload = []; download = []; destroyed = [] }

abbrev full_arena : DescriptorArena
full_arena = record { pools = 1; current = 0; used_in_current = 1024 }

abbrev one_at_a_time : Caps
one_at_a_time = record { max_in_flight = 1; max_dispatches = 64 }

abbrev all_well : Answers
all_well = record {
  opens = true;
  records = true;
  creates = true;
  allocates = true;
  maps = true;
  ends = true;
  fences = true;
  submits = true;
  copies = true;
  waits = λ fence. true;
  grants = λ i size. true;
}

-- One submission in flight that uses buffer 1, and a dispatch on buffer 0 in the open command buffer.
abbrev recording : StreamState
recording = record {
  memory = memory;
  descriptors = record { pools = 1; current = 0; used_in_current = 2 };
  recorded = (0 ∷ []) ∷ [];
  pending_dispatches = 1;
  is_open = true;
  finished = false;
  pending_deferred = [];
  pending = record { commands = (1 ∷ []) ∷ []; fence = 0; on_complete = [] } ∷ [];
  submitted = 1;
}

-- Buffer 0 is used by the open command buffer; its destruction, deferred to the submission in flight,
-- happens in the flush before that command buffer is submitted.
destroyed_before_its_use :
    let s = (flush one_at_a_time all_well (defer_destroy tensor recording)).1 in
    (s.memory.destroyed ≡ tensor ∷ [])
    × (s.pending ≡ record { commands = (0 ∷ []) ∷ []; fence = 1; on_complete = [] } ∷ [])
unfolding flush defer_destroy destroy_buffer
destroyed_before_its_use = (refl, refl)

run-below_example :
    length
      (run one_at_a_time
        ((dispatch (other ∷ []), all_well) ∷ (submit_open, all_well) ∷ [])
        recording).pending
    ≤ 1
run-below_example =
    run-below one_at_a_time (omega arith)
      ((dispatch (other ∷ []), all_well) ∷ (submit_open, all_well) ∷ []) recording (omega arith)

stream_dispatch_slices-below_example :
    (stream_dispatch_slices one_at_a_time all_well (other ∷ []) recording).1.pending_dispatches < 64
unfolding stream_dispatch_slices
stream_dispatch_slices-below_example =
    stream_dispatch_slices-below one_at_a_time all_well (other ∷ []) recording (omega arith)
      (omega arith) refl

owed-flush_example : owed 0 (flush one_at_a_time all_well recording).1 ≡ owed 0 recording
unfolding flush
owed-flush_example = owed-flush 0 one_at_a_time all_well recording refl

owed-defer_destroy_example :
    owed 0 (flush one_at_a_time all_well (defer_destroy tensor recording)).1
    ≡ copy 0 tensor + owed 0 recording
unfolding flush defer_destroy
owed-defer_destroy_example = owed-defer_destroy 0 one_at_a_time all_well tensor recording refl

finish_stream-lem_example :
    ((finish_stream all_well recording).0 ≡ true)
    × ((finish_stream all_well recording).1.pending ≡ [])
    × ((finish_stream all_well recording).1.is_open ≡ false)
    × (owed 0 (finish_stream all_well recording).1 ≡ owed 0 recording)
finish_stream-lem_example = finish_stream-lem 0 all_well recording (λ k. refl)

acquire_descriptor_set-lem_example :
    (pool : ℕ) × (i : ℕ) × ((acquire_descriptor_set true true full_arena).0 ≡ set_of pool i)
    × (pool * 1024 + i ≡ given full_arena)
    × (i < 1024)
    × (pool < (acquire_descriptor_set true true full_arena).1.pools)
    × (given (acquire_descriptor_set true true full_arena).1 ≡ suc (given full_arena))
    × IsArena (acquire_descriptor_set true true full_arena).1
acquire_descriptor_set-lem_example =
    acquire_descriptor_set-lem full_arena (inr (omega arith, omega arith))

acquire_descriptor_set-after_failure_example :
    ((acquire_descriptor_set false true full_arena).0 ≡ failed)
    × ((acquire_descriptor_set true true (acquire_descriptor_set false true full_arena).1).0
        ≡ panicked)
acquire_descriptor_set-after_failure_example =
    acquire_descriptor_set-after_failure full_arena true true refl (omega arith)
