-- ===== src/Buffer/Result.antt =====
-- The result of `kl_buffer_create` of src/buffer.c, and its sizes.
use kirilock.Base.{
  IsInt, negsuc, not, ◌||◌, ◌==◌, Bool-cases, inl, inr, ltb, ◌/◌, ℕ, ◌*◌, ◌%◌, ◌^◌, ◌≤◌, ◌<◌, ◌≡◌,
  ℤ, Bool, true, false, Option, none, some, arith, pos, is_positive, is_some,
}
use kirilock.Platform.{ReturnsInts, Env, World}
use kirilock.Buffer.{
  Buffer, Status, success, failure, Geometry, kl_buffer_destroy, create_wl_buffer, use_pool,
  use_address, use_fd, create_sized, use_stride, kl_buffer_create, geometry, size_max, physical,
}

-- A buffer that can be drawn to and attached, of the wanted sizes.
pub record IsReady (g : Geometry) (cb : Bool) (ud : Option ℕ) (b : Buffer) : Type 0 where
  pub has_wl_buffer : is_some b.wl_buffer ≡ true
  pub has_pixels : is_some b.pixels ≡ true
  pub has_cairo : is_some b.cairo ≡ true
  pub has_cr : is_some b.cr ≡ true
  pub same_width : b.width ≡ g.width
  pub same_height : b.height ≡ g.height
  pub same_scale : b.scale ≡ g.scale
  pub same_stride : b.stride ≡ g.stride
  pub same_size : b.size ≡ g.size
  pub is_idle : b.busy ≡ false
  pub listens : b.on_release ≡ cb
  pub owner : b.user_data ≡ ud

-- The two outcomes: a ready buffer, or one with no wl_buffer and no pixels.
abbrev pub Outcome : Geometry → Bool → Option ℕ → Status × Buffer → Type 0
Outcome g cb ud (success, b) = IsReady g cb ud b
Outcome g cb ud (failure, b) =
    (b.wl_buffer ≡ none) × (b.pixels ≡ none) × (b.cr ≡ none) × (b.busy ≡ false)

module _ (g : Geometry) (cb : Bool) (ud : Option ℕ) (buf : Buffer)
    (no_wl_buffer : buf.wl_buffer ≡ none) (no_pixels : buf.pixels ≡ none) (no_cr : buf.cr ≡ none)
    (idle : buf.busy ≡ false) where
  create_wl_buffer-Outcome :
      (address pl : ℕ) (env : Env) (s : World)
      → Outcome g cb ud (create_wl_buffer g address cb ud buf pl env s).0
  unfolding create_wl_buffer kl_buffer_destroy
  create_wl_buffer-Outcome address pl env s = ground arith

  use_pool-Outcome :
      (address : ℕ) (p : Option ℕ) (env : Env) (s : World)
      → Outcome g cb ud (use_pool g address cb ud buf p env s).0
  unfolding use_pool
  use_pool-Outcome address none env s = ground arith
  use_pool-Outcome address (some p) env s = create_wl_buffer-Outcome address p env s

  use_address-Outcome :
      (shm fd : ℕ) (p : Option ℕ) (env : Env) (s : World)
      → Outcome g cb ud (use_address shm g fd cb ud buf p env s).0
  unfolding use_address
  use_address-Outcome shm fd none env s = ground arith
  use_address-Outcome shm fd (some p) env s = use_pool-Outcome p _ env _

  use_fd-Outcome :
      (shm : ℕ) (p : Option ℕ) (env : Env) (s : World)
      → Outcome g cb ud (use_fd shm g cb ud buf p env s).0
  unfolding use_fd
  use_fd-Outcome shm none env s = ground arith
  use_fd-Outcome shm (some fd) env s = use_address-Outcome shm fd _ env _

mul-le_of_le_div : (a b m : ℕ) → 0 < a → b ≤ m / a → a * b ≤ m
mul-le_of_le_div a b m h k = grind arith

-- Under the overflow check nothing wraps at 2^64.
size_fits :
    (stride extent : ℕ)
    → 0 < stride
    → ltb (size_max / stride) extent ≡ false
    → (stride * extent < 2 ^ 64) × (stride * extent % 2 ^ 64 ≡ stride * extent)
size_fits stride extent h k =
    let fits : stride * extent ≤ size_max =
      mul-le_of_le_div stride extent size_max h (ground arith) in
    (omega arith, omega arith)

-- What a caller of `kl_buffer_create` gets: on success a ready buffer of the asked sizes, whose
-- memory holds the whole image, and on failure one that nothing can be attached from.
abbrev pub Created : ℕ → ℕ → ℤ → Bool → Option ℕ → Status × Buffer → Type 0
Created width height scale cb ud (success, b) =
    IsReady (geometry width height scale b.stride) cb ud b
    × (0 < b.stride)
    × (b.size ≡ b.stride * physical height scale)
    × (b.size < 2 ^ 64)
Created width height scale cb ud (failure, b) =
    (b.wl_buffer ≡ none) × (b.pixels ≡ none) × (b.cr ≡ none) × (b.busy ≡ false)

module _ (width height : ℕ) (scale : ℤ) (cb : Bool) (ud : Option ℕ) (buf : Buffer)
    (no_wl_buffer : buf.wl_buffer ≡ none) (no_pixels : buf.pixels ≡ none) (no_cr : buf.cr ≡ none)
    (idle : buf.busy ≡ false) where
  Outcome-Created :
      (stride : ℕ)
      → 0 < stride
      → ltb (size_max / stride) (physical height scale) ≡ false
      → (r : Status × Buffer) → Outcome (geometry width height scale stride) cb ud r
      → Created width height scale cb ud r
  Outcome-Created stride h k (success, b) o =
      ground (arith, size_fits stride (physical height scale))
  Outcome-Created stride h k (failure, b) o = o

  create_sized-Created :
      (shm stride : ℕ)
      → 0 < stride
      → (env : Env) (s : World)
      → Created width height scale cb ud
          (create_sized shm (geometry width height scale stride) cb ud buf env s).0
  unfolding create_sized
  create_sized-Created shm stride h env s =
      elim (Bool-cases (ltb (size_max / stride) (physical height scale))) [
        | inl over ↦ rw over (no_wl_buffer, no_pixels, no_cr, idle)
        | inr fits ↦ rw fits (
            Outcome-Created stride h fits _
              (use_fd-Outcome _ cb ud buf no_wl_buffer no_pixels no_cr idle shm _ env _))
      ]

  use_stride-Created :
      (shm : ℕ) (stride : ℤ)
      → IsInt stride
      → (env : Env) (s : World)
      → Created width height scale cb ud
          (use_stride shm width height scale cb ud buf stride env s).0
  unfolding use_stride
  use_stride-Created shm (negsuc n) int env s = (no_wl_buffer, no_pixels, no_cr, idle)
  use_stride-Created shm (pos n) int env s = elim (Bool-cases (ltb 0 n)) [
    | inl h ↦ rw h (create_sized-Created shm (n % 2 ^ 32) (ground arith) env s)
    | inr h ↦ rw h (no_wl_buffer, no_pixels, no_cr, idle)
  ]

  -- On success `kl_buffer_create` returns an idle buffer of the asked size and scale with its
  -- callback, whose memory is the stride times the physical height and below 2^64; on failure the
  -- buffer has no wl_buffer, no pixels and no cairo context and is idle. The buffer had none of
  -- these before and was idle, and the calls return 32-bit integers.
  pub kl_buffer_create-Created :
      (shm : Option ℕ) (env : Env) (s : World)
      → ReturnsInts env
      → Created width height scale cb ud (kl_buffer_create shm buf width height scale cb ud env s).0
  unfolding kl_buffer_create
  kl_buffer_create-Created none env s ints = (no_wl_buffer, no_pixels, no_cr, idle)
  kl_buffer_create-Created (some shm) env s ints =
      elim (Bool-cases (width == 0 || height == 0 || not (is_positive scale))) [
        | inl h ↦ rw h (no_wl_buffer, no_pixels, no_cr, idle)
        | inr h ↦ rw h (use_stride-Created shm _ (ints _ _) env _)
      ]
