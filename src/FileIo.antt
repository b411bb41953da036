-- ===== src/FileIo.antt =====
-- include/datahandlinglibs/utils/BufferedFileWriter.hpp and BufferedFileReader.hpp, over the file
-- system and the compressing streams, which are parameters. A byte is a number.
pub mod Stored
pub mod Recorder
pub mod Bytes
pub mod Written
pub mod RoundTrip
use datahandlinglibs.Base.{
  ℕ, zero, suc, ◌+◌, ◌-◌, ◌*◌, ◌/◌, ◌%◌, ◌^◌, ◌≤◌, ◌<◌, min, max, ◌≡◌, refl, sym, ap, ap₂, subst,
  ◌∙◌, ◌≢◌, ◌↔◌, ◌⊎◌, inl, inr, Bool, true, false, not, ◌&&◌, ◌||◌, Option, none, some, List, [],
  ◌∷◌, ◌++◌, map, append_assoc, append-nil, arith, dec_lt, dec_le, ℕ_discrete, ltb, leb, ◌==◌,
  if◌then◌else◌, ltb→lt, lt→ltb, ltb_ge, le→ltb, leb→le, ==_iff, Bool-cases, Option-cases, ne→==,
  eq→==, ◌>>=◌, le→leb, leb_gt, bind-some, length, get_elem?, set, drop, take, replicate,
  length-append, length-set, length-replicate, length-drop, get_elem?-set_self, get_elem?-set_ne,
  get_elem?-replicate, get_elem?-none, get_elem?-some, get_elem?-append_left,
  get_elem?-append_right, get_elem?-drop, drop-eq-cons, drop-eq-nil, take-all, add32, sub32, add64,
  sub64, mul64,
}
use Prim.Native.String.{String}
use text.Mathlib.Text.{◌==◌ as ◌=str◌}

pub data FileError : Type 0 where
  cannot_open configuration chain_complete : FileError

pub data Compression : Type 0 where
  zstd lzma zlib uncompressed : Compression

-- The names that the two `open` functions compare with.
unfoldable pub compression_of : String → Option Compression
compression_of name =
    if name =str "zstd"
    then some zstd
    else if name =str "lzma"
    then some lzma
    else if name =str "zlib"
    then some zlib
    else if name =str "None"
    then some uncompressed
    else none

-- The file contents by name, and what the operating system refuses.
abbrev pub Disk : Type 0
Disk = String → Option (List ℕ)

pub record Platform : Type 0 where
  -- `::open` returns -1
  pub refuses : String → Bool
  -- how many bytes of a `write(2)` the system takes: with O_DIRECT or not, at an offset of the file
  pub takes : Bool → ℕ → ℕ → ℕ
  -- how many bytes leave a stream with a buffer of this size that holds so many
  pub spills : ℕ → ℕ → ℕ
  -- a compressing stream that was given this many bytes turns bad
  pub full : ℕ → Bool
  pub compress : Compression → List ℕ → List ℕ
  pub decompress : Compression → List ℕ → List ℕ

-- A decompressor gives back what its compressor took.
pub record PlatformLaws (p : Platform) : Type 0 where
  pub decompress-compress : (a : Compression) (bs : List ℕ) → p.decompress a (p.compress a bs) ≡ bs

-- The system takes all bytes that it is given.
pub record TakesAll (p : Platform) : Type 0 where
  pub takes_law : (direct : Bool) (position n : ℕ) → p.takes direct position n ≡ n
  pub full_law : (n : ℕ) → p.full n ≡ false

-- An object of the readout type in memory.
pub record Layout (T : Type 0) : Type 0 where
  pub size : ℕ
  pub encode : T → List ℕ
  pub decode : List ℕ → T

pub record LayoutLaws {T : Type 0} (l : Layout T) : Type 0 where
  pub size_pos : 0 < l.size
  pub length-encode : (x : T) → length (l.encode x) ≡ l.size
  pub decode-encode : (x : T) → l.decode (l.encode x) ≡ x

-- `file_descriptor_sink` at this offset of the file; `direct` is O_DIRECT.
pub record Writer : Type 0 where
  pub filename : String
  pub buffer_size : ℕ
  pub compression_algorithm : String
  pub filter : Compression
  pub position : ℕ
  pub pending : List ℕ
  pub bad : Bool
  pub direct : Bool
  pub is_open : Bool
  pub use_o_direct : Bool

abbrev pub new_writer : Writer
new_writer = record {
  filename = "";
  buffer_size = 0;
  compression_algorithm = "";
  filter = uncompressed;
  position = 0;
  pending = [];
  bad = true;
  direct = false;
  is_open = false;
  use_o_direct = true;
}

-- `write(2)` at an offset.
unfoldable pub write_at : ℕ → List ℕ → List ℕ → List ℕ
write_at pos bs old = take pos old ++ (bs ++ drop (pos + length bs) old)

unfoldable pub contents : Disk → String → List ℕ
contents disk name = elim (disk name) [ none ↦ [] | some bs ↦ bs ]

unfoldable pub store : String → List ℕ → Disk → Disk
store name bs disk other = if other =str name then some bs else disk other

module _ (p : Platform) where
  unfoldable pub filtered : Compression → List ℕ → List ℕ
  filtered uncompressed bs = bs
  filtered zstd bs = p.compress zstd bs
  filtered lzma bs = p.compress lzma bs
  filtered zlib bs = p.compress zlib bs

  unfoldable pub unfiltered : Compression → List ℕ → List ℕ
  unfiltered uncompressed bs = bs
  unfiltered zstd bs = p.decompress zstd bs
  unfiltered lzma bs = p.decompress lzma bs
  unfiltered zlib bs = p.decompress zlib bs

  -- Bytes leave the stream for the file, and `rest` stays. What the system does not take is lost, and
  -- the stream is bad then.
  unfoldable pub put : Bool → List ℕ → List ℕ → Writer → Disk → Writer × Disk
  put direct bs rest w disk =
      let taken = take (p.takes direct w.position (length bs)) bs in
      (
        record w {
          position = w.position + length taken;
          pending = rest;
          bad = w.bad || ltb (length taken) (length bs);
        },
        store w.filename (write_at w.position taken (contents disk w.filename)) disk,
      )

  -- `BufferedFileWriter::close`: the descriptor leaves O_DIRECT, and the reset of the stream sends
  -- what it holds through the compressor. Nothing tells whether it could.
  unfoldable pub close : Writer → Disk → Writer × Disk
  unfolding put
  close w disk =
      let sent = put false (filtered w.filter w.pending) [] w disk in
      (record (sent.0) { direct = false; bad = true; is_open = false }, sent.1)

  -- `BufferedFileWriter::open` once no file is open. There is no O_TRUNC.
  unfoldable pub open_closed :
      Writer → Disk → String → ℕ → String → Bool → Writer × Disk × Option FileError
  open_closed w disk name buffer algorithm o_direct =
      let named = record w {
        filename = name;
        buffer_size = buffer;
        compression_algorithm = algorithm;
        use_o_direct = o_direct;
      } in
      if p.refuses name then (named, disk, some cannot_open) else (elim (compression_of algorithm) [
        | none ↦ (
          record named { direct = o_direct },
          store name (contents disk name) disk,
          some configuration,
        )
        | some c ↦ (
          record named {
            filter = c;
            position = 0;
            pending = [];
            bad = false;
            direct = o_direct;
            is_open = true;
          },
          store name (contents disk name) disk,
          none,
        )
      ])

  -- `BufferedFileWriter::open`: an open file is closed first.
  unfoldable pub open_writer :
      Writer → Disk → String → ℕ → String → Bool → Writer × Disk × Option FileError
  unfolding close open_closed
  open_writer w disk name buffer algorithm o_direct =
      let closed = if w.is_open then close w disk else (w, disk) in
      open_closed closed.0 closed.1 name buffer algorithm o_direct

  -- What a stream sends on when it holds these bytes. A compressor keeps them up to its end.
  unfoldable pub hand_on : Writer → Disk → Writer × Disk
  unfolding put
  hand_on w disk = elim w.filter [
    | uncompressed ↦
        let n = p.spills w.buffer_size (length w.pending) in
        put w.direct (take n w.pending) (drop n w.pending) w disk
    | _ ↦ (record w { bad = p.full (length w.pending) }, disk)
  ]

  -- `BufferedFileWriter::write`: the bytes go to the stream, which may send some on.
  unfoldable pub write : Writer → List ℕ → Disk → (Writer × Disk) × Bool
  unfolding hand_on
  write w bs disk =
      if not w.is_open || w.bad
      then ((w, disk), false)
      else (let sent = hand_on (record w { pending = w.pending ++ bs }) disk in
          (sent, not sent.0.bad))

  -- `BufferedFileWriter::flush`: the compressors are not flushable, and a bad stream does nothing.
  -- Nothing tells whether the bytes were taken.
  unfoldable pub flush : Writer → Disk → Writer × Disk
  unfolding put
  flush w disk =
      let sent : Writer × Disk = elim w.filter [
        | uncompressed ↦
            (if not w.is_open || w.bad then (w, disk) else put false w.pending [] w disk)
        | _ ↦ (w, disk)
      ] in
      (record (sent.0) { direct = w.use_o_direct }, sent.1)

  -- `~BufferedFileWriter`
  unfoldable pub destroy_writer : Writer → Disk → Disk
  unfolding close
  destroy_writer w disk = if w.is_open then (close w disk).1 else disk

pub record Reader : Type 0 where
  pub filename : String
  pub buffer_size : ℕ
  pub compression_algorithm : String
  -- what the stream has not given yet
  pub rest : List ℕ
  pub is_open : Bool

abbrev pub new_reader : Reader
new_reader = record {
  filename = "";
  buffer_size = 0;
  compression_algorithm = "";
  rest = [];
  is_open = false;
}

module _ (p : Platform) where
  -- `BufferedFileReader::open`. It does not close an open file: the chain of streams is complete
  -- then, and takes no other.
  unfoldable pub open_reader : Reader → Disk → String → ℕ → String → Reader × Option FileError
  open_reader r disk name buffer algorithm =
      let named = record r {
        filename = name;
        buffer_size = buffer;
        compression_algorithm = algorithm;
      } in
      (elim (disk name) [
        | none ↦ (named, some cannot_open)
        | some bs ↦
            (if p.refuses name
              then (named, some cannot_open)
              else (elim (compression_of algorithm) [
                | none ↦ (named, some configuration)
                | some c ↦
                    (if r.is_open
                      then (named, some chain_complete)
                      else (record named { rest = unfiltered p c bs; is_open = true }, none))
              ]))
      ])

module _ {T : Type 0} (l : Layout T) where
  -- `BufferedFileReader::read`; no element is a false result.
  unfoldable pub read : Reader → Reader × Option T
  read r = if not r.is_open then (r, none) else (
    record r { rest = drop l.size r.rest },
    (if leb l.size (length r.rest) then some (l.decode (take l.size r.rest)) else none),
  )

  -- Reading on until `read` is false, at most `fuel` times.
  unfoldable pub read_all : ℕ → Reader → List T
  read_all zero r = []
  read_all (suc fuel) r =
      let step = read r in (elim step.1 [ none ↦ [] | some x ↦ x ∷ read_all fuel step.0 ])

-- `BufferedFileReader::close`
unfoldable pub close_reader : Reader → Reader
close_reader r = record r { rest = []; is_open = false }
