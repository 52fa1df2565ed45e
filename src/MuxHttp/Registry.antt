-- ===== src/MuxHttp/Registry.antt =====
-- internal/mux_http/server/registry.go: the registry of push streams, with its index by id. An
-- entry holds a reference to its buffer; the registry here holds the buffers, and the process-wide
-- id counter.
pub mod Index
use accel_proxy.Common.{
  List, Option, String, [], bool_eq, if◌then◌else◌, nat_beq, nat_eq, none, pair_eq, some, string_eq,
  ℕ, ◌%◌, ◌+◌, ◌^◌, ◌∷◌,
}
use accel_proxy.Common.Int.{int_eq, ℤ}
use accel_proxy.Common.Dict.{Dict, delete, insert, lookup}
use accel_proxy.MuxHttp.Buffer.{StreamBuffer, new_stream_buffer}

pub record StreamEntry : Type 0 where
  pub name : String
  pub id : ℕ
  pub buffer : ℕ

pub record StreamRegistry : Type 0 where
  pub streams : Dict String StreamEntry
  pub by_id : Dict ℕ StreamEntry
  pub max_retain : ℤ
  pub next_stream_id : ℕ
  pub buffers : ℕ → StreamBuffer
  pub next_buffer : ℕ

-- The first `uint32` after the counter that is not 0; it is the counter's new value.
pub alloc_stream_id : ℕ → ℕ
alloc_stream_id counter =
    let id = (counter + 1) % 2 ^ 32 in if nat_beq id 0 then (id + 1) % 2 ^ 32 else id

-- The entry that `GetOrCreate` makes.
pub new_entry : StreamRegistry → String → StreamEntry
new_entry r name = record {
  name = name;
  id = alloc_stream_id r.next_stream_id;
  buffer = r.next_buffer;
}

pub add_entry : StreamRegistry → StreamEntry → StreamRegistry
add_entry r e = record {
  streams = insert e.name e r.streams;
  by_id = insert e.id e r.by_id;
  max_retain = r.max_retain;
  next_stream_id = e.id;
  buffers = λ i. if nat_beq i r.next_buffer then new_stream_buffer r.max_retain else r.buffers i;
  next_buffer = r.next_buffer + 1;
}

pub get_or_create : StreamRegistry → String → StreamRegistry × StreamEntry
get_or_create r name = elim (lookup name r.streams) [
  | some e ↦ (r, e)
  | none ↦ (add_entry r (new_entry r name), new_entry r name)
]

unfoldable pub get : StreamRegistry → String → Option StreamEntry
get r name = lookup name r.streams

unfoldable pub get_by_id : StreamRegistry → ℕ → Option StreamEntry
get_by_id r id = lookup id r.by_id

pub remove : StreamRegistry → String → StreamRegistry
remove r name = elim (lookup name r.streams) [
  | some e ↦ record r { by_id = delete e.id r.by_id; streams = delete name r.streams }
  | none ↦ r
]

-- The loop of `ClosedStreams`.
pub closed_names : (ℕ → StreamBuffer) → Dict String StreamEntry → List String
closed_names buffers [] = []
closed_names buffers ((name, e) ∷ more) =
    let rest = closed_names buffers more in if (buffers e.buffer).closed then name ∷ rest else rest

pub closed_streams : StreamRegistry → List String
unfolding closed_names
closed_streams r = closed_names r.buffers r.streams
