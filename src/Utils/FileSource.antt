-- ===== src/Utils/FileSource.antt =====
-- include/datahandlinglibs/utils/FileSourceBuffer.hpp. The content of the file is an argument, `none`
-- where it cannot be opened; sizes are below the range of `int`.
use datahandlinglibs.Base.{
  ℕ, ◌+◌, ◌/◌, ◌%◌, ◌&&◌, Option, none, some, List, [], ◌++◌, ltb, if◌then◌else◌, length,
}

pub record FileSource : Type 0 where
  pub input_limit : ℕ
  pub chunk_size : ℕ
  pub element_count : ℕ
  pub input_buffer : List ℕ
  -- `GenericConfigurationError` as a warning
  pub warnings : ℕ

-- `FileSourceBuffer(input_limit, chunk_size)`
abbrev pub file_source : ℕ → ℕ → FileSource
file_source limit chunk = record {
  input_limit = limit;
  chunk_size = chunk;
  element_count = 0;
  input_buffer = [];
  warnings = 0;
}

-- What `read` does with the bytes of the file. They go before those of an earlier read.
unfoldable pub load : List ℕ → FileSource → FileSource
load bytes f =
    let limit_exceeded = ltb f.input_limit (length bytes) in
    let remains = ltb 0 f.chunk_size && ltb 0 (length bytes % f.chunk_size) in
    record f {
      element_count = if ltb 0 f.chunk_size then length bytes / f.chunk_size else f.element_count;
      input_buffer = bytes ++ f.input_buffer;
      warnings = f.warnings + (if limit_exceeded then 1 else 0) + (if remains then 1 else 0);
    }

-- `read`; no result is the exception `GenericConfigurationError`.
unfoldable pub read : Option (List ℕ) → FileSource → Option FileSource
unfolding load
read none f = none
read (some bytes) f = some (load bytes f)

-- `num_elements`
abbrev pub num_elements : FileSource → ℕ
num_elements f = f.element_count

-- `get`
abbrev pub get : FileSource → List ℕ
get f = f.input_buffer
