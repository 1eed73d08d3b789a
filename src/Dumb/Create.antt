-- ===== src/Dumb/Create.antt =====
-- What `drv_dumb_bo_create_ex` makes of the answer of the kernel.
use minigbm.Base.{
  ℕ, zero, suc, ◌*◌, ◌^◌, ◌+◌, ◌≤◌, ◌<◌, ◌≡◌, ◌≢◌, refl, ap, sym, ◌∙◌, true, false, some, List,
  length, get_or, set, replicate, arith, ◌!=◌, length-set, get_or-set_self, get_or-set_ne,
}
use native.Mathlib.Decide.{ℕ_discrete}
use minigbm.Types.{Bo, IsSized, drv_max_planes}
use minigbm.Kernel.{Kernel, Request, Sys, call}
use minigbm.Format.{PlanarLayout, layout_from_format}
use minigbm.Format.Layouts.{layout_from_format-IsValidLayout}
use minigbm.BoLayout.{drv_bo_from_format}
use minigbm.BoLayout.Loop.{Placed}
use minigbm.BoLayout.Contiguous.{AndroidFits, drv_bo_from_format_and_padding_lem}
use minigbm.BoLayout.Planes.{drv_bo_from_format-num_planes}
use minigbm.Dumb.{
  dumb_size, dumb_pixels, set_handles, dumb_request, dumb_created, drv_dumb_bo_create_ex,
}
use minigbm.Dumb.Room.{IsSize, IsRow, dumb_size-IsSize, dumb_pixels-IsRow, IsSize-AndroidFits}
use native.Mathlib.Nat.{mul-le-mul_right}
use minigbm.Util.{align}
use minigbm.Fourcc.{drm_format_yvu420_android}

set_handles-other :
    (handle rest p q : ℕ) (handles : List ℕ)
    → q < p
    → get_or (set_handles handle rest p handles) q 0 ≡ get_or handles q 0
unfolding set_handles
set_handles-other handle zero p q handles h = refl
set_handles-other handle (suc rest) p q handles h =
    set_handles-other handle rest (suc p) q (set handles p handle) (omega arith)
    ∙ get_or-set_ne handles p q handle 0 (λ e. absurd (omega arith))

-- Every plane of the range takes the handle.
set_handles_lem :
    (handle rest p q : ℕ) (handles : List ℕ)
    → p ≤ q
    → q < p + rest
    → p + rest ≤ length handles
    → get_or (set_handles handle rest p handles) q 0 ≡ handle
unfolding set_handles
set_handles_lem handle zero p q handles h lt fits = absurd (omega arith)
set_handles_lem handle (suc rest) p q handles h lt fits = elim (ℕ_discrete p q) [
  | yes e ↦
      set_handles-other handle rest (suc p) q (set handles p handle) (omega arith)
      ∙ ap (λ t. get_or (set handles p handle) t 0) (sym e)
      ∙ get_or-set_self handles p handle 0 (omega arith)
  | no ne ↦
      set_handles_lem handle rest (suc p) q (set handles p handle) (omega arith) (omega arith)
        (omega (arith, length-set handles p handle))
]

code_ne : (n : ℕ) → n ≢ 0 → (n != 0) ≡ true
code_ne n h = ground arith

code_eq : (n : ℕ) → n ≡ 0 → (n != 0) ≡ false
code_eq n h = ground arith

module _ (kernel : Kernel) (bo : Bo) (width height format quirks : ℕ) (sys : Sys)
    (l : PlanarLayout) where
  -- What comes of a request for a buffer whose rows are laid out up to `laid`: the kernel refuses it,
  -- and the buffer is as it was; or it grants it, and every plane has the handle of the answer and is
  -- laid out on its pitch, and the total size is that of the answer.
  pub data DumbCreated (request : Request) (laid : ℕ) : ℕ × Bo × Sys → Type 0 where
    refused :
        (call kernel request sys).0.ret ≢ 0
        → DumbCreated request laid
            ((call kernel request sys).1.errno, bo, (call kernel request sys).1)
    granted :
        (bo' : Bo)
        → (call kernel request sys).0.ret ≡ 0
        → bo'.meta.total_size ≡ (call kernel request sys).0.size
        → ((p : ℕ)
            → p < l.num_planes
            → (get_or bo'.handles p 0 ≡ (call kernel request sys).0.handle)
              × Placed
                  (call kernel request sys).0.pitch
                  laid
                  format
                  (replicate drv_max_planes 0)
                  l
                  bo'.meta
                  p)
        → DumbCreated request laid (0, bo', (call kernel request sys).1)

  -- The size of the `switch`, and the request with it.
  abbrev size : ℕ × ℕ × ℕ
  size = dumb_size width height format bo.meta.height

  abbrev pixels : ℕ × ℕ
  pixels = dumb_pixels (size.0) (get_or l.bytes_per_pixel 0 0) quirks

  abbrev request : Request
  request = Request.mode_create_dumb (pixels.0) (size.1) (pixels.1)

  request_eq :
      layout_from_format format ≡ some l
      → dumb_request kernel bo width height format quirks ≡ some request
  unfolding dumb_request
  request_eq known = rw known refl

  created_lem :
      IsSized bo.meta
      → length bo.handles ≡ drv_max_planes
      → layout_from_format format ≡ some l
      → bo.meta.num_planes ≡ l.num_planes
      → AndroidFits bo.meta (call kernel request sys).0.pitch (size.2) format
      → (r : ℕ × Bo × Sys) × (drv_dumb_bo_create_ex kernel bo width height format quirks sys
          ≡ some r)
        × DumbCreated request (size.2) r
  unfolding drv_dumb_bo_create_ex dumb_created drv_bo_from_format
  created_lem sized handles known planes fits =
      let (reply, sys') = call kernel request sys in
      let (m', e, _, placed, _) =
        drv_bo_from_format_and_padding_lem bo.meta reply.pitch (size.2) format
          (replicate drv_max_planes 0) l sized known fits in
      let same : m'.num_planes ≡ bo.meta.num_planes =
        drv_bo_from_format-num_planes bo.meta m' reply.pitch (size.2) format e in
      elim (ℕ_discrete reply.ret 0) [
        | yes ok ↦ (
          _,
          rw (request_eq known, code_eq reply.ret ok, e) refl,
          granted
              (record bo {
                meta = record m' { total_size = reply.size };
                handles = set_handles reply.handle m'.num_planes 0 bo.handles;
              })
              ok refl
              (λ p lt. (
                set_handles_lem reply.handle m'.num_planes 0 p bo.handles (omega arith)
                    (omega (arith, same, planes))
                    (omega (
                      arith,
                      same,
                      planes,
                      handles,
                      (layout_from_format-IsValidLayout format known).few_planes,
                    )),
                record {
                  at_offset = (placed p lt).at_offset;
                  at_size = (placed p lt).at_size;
                  at_stride = (placed p lt).at_stride;
                },
              )),
        )
        | no bad ↦ (_, rw (request_eq known, code_ne reply.ret bad) refl, refused bad)
      ]

  -- If the format is known, the buffer has its arrays in full length and the planes of the
  -- format, its sizes do not wrap, and for the Android format the pitches that the kernel
  -- answers are multiples of 32, then creating a dumb buffer never aborts. It asks the kernel
  -- for a row of the width, aligned to 16 pixels for R16 and to 32 for the Android format, in
  -- pixels of the format or, with the quirk, in words that hold the row. The rows that are laid
  -- out are those of the caller, or those of the buffer for the Android format, and it asks for
  -- these, or for three times their half, rounded up, where the format has chroma planes of half
  -- the rows. If the kernel refuses, its error is returned and the buffer is as it was; else
  -- every plane has the handle of the answer and is laid out on its pitch, and the total size is
  -- that of the answer.
  pub drv_dumb_bo_create_ex_lem :
      IsSized bo.meta
      → length bo.handles ≡ drv_max_planes
      → layout_from_format format ≡ some l
      → bo.meta.num_planes ≡ l.num_planes
      → width < 2 ^ 31
      → height < 2 ^ 30
      → bo.meta.height < 2 ^ 30
      → (width + 32) * get_or l.bytes_per_pixel 0 0 + 3 < 2 ^ 32
      → ((r : Request)
          → format ≡ drm_format_yvu420_android
          → (kernel sys.calls r).pitch ≡ align (kernel sys.calls r).pitch 32)
      → (w asked laid pixels bits : ℕ) × (r : ℕ × Bo × Sys) × (drv_dumb_bo_create_ex kernel bo width
            height format quirks sys
          ≡ some r)
        × IsSize width height bo.meta.height format w asked laid
        × IsRow w (get_or l.bytes_per_pixel 0 0) quirks pixels bits
        × DumbCreated (Request.mode_create_dumb pixels asked bits) laid r
  unfolding call
  drv_dumb_bo_create_ex_lem sized handles known planes narrow low bo_low row fits =
      let is_size = dumb_size-IsSize width height format bo.meta.height narrow low bo_low in
      let bytes = get_or l.bytes_per_pixel 0 0 in
      let below : size.0 * bytes ≤ (width + 32) * bytes =
        mul-le-mul_right bytes (omega (arith, is_size.not_wider)) in
      let (r, e, created) = created_lem sized handles known planes (
        IsSize-AndroidFits bo.meta width height format (size.0) (size.1) (size.2)
          (kernel sys.calls request).pitch is_size (fits request)) in
      (
        size.0,
        size.1,
        size.2,
        pixels.0,
        pixels.1,
        r,
        e,
        is_size,
        dumb_pixels-IsRow (size.0) bytes quirks (omega (arith, below)),
        created,
      )
