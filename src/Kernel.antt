-- ===== src/Kernel.antt =====
-- The calls of the drivers into the kernel and libc. They are not code of this repository: what
-- they answer is a parameter, any function of the calls made so far.
pub mod Series
use minigbm.Base.{ℕ, Bool, List, ◌∷◌, ◌==◌, if◌then◌else◌}

-- A call with the arguments that the code passes; `drmIoctl` by its request.
pub data Request : Type 0 where
  gem_close : ℕ → Request
  prime_fd_to_handle : ℕ → Request
  mode_create_dumb : ℕ → ℕ → ℕ → Request
  mode_destroy_dumb : ℕ → Request
  mode_map_dumb : ℕ → Request
  mmap : ℕ → ℕ → ℕ → Request
  munmap : ℕ → ℕ → Request
  seek_end : ℕ → Request
  seek_set : ℕ → Request
  handle_to_fd : ℕ → Bool → Request
  close : ℕ → Request
  poll : ℕ → ℕ → Request
  device : ℕ → List ℕ → Request

-- What a call returns and what it writes back; each caller reads the fields that its call has.
-- `ret` is 0 for success, and `error` the `errno` of a failure, else unused.
pub record Reply : Type 0 where
  pub ret : ℕ
  pub error : ℕ
  pub handle : ℕ
  pub pitch : ℕ
  pub size : ℕ
  pub offset : ℕ
  pub value : ℕ

-- The answers, given the calls so far, the latest first.
abbrev pub Kernel : Type 0
Kernel = List Request → Request → Reply

-- The calls so far, and `errno`.
pub record Sys : Type 0 where
  pub calls : List Request
  pub errno : ℕ

-- A successful call leaves `errno` alone.
unfoldable pub call : Kernel → Request → Sys → Reply × Sys
call kernel request sys =
    let reply = kernel sys.calls request in
    (
      reply,
      record {
        calls = request ∷ sys.calls;
        errno = if reply.ret == 0 then sys.errno else reply.error;
      },
    )
