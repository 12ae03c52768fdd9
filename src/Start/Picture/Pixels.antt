-- ===== src/Start/Picture/Pixels.antt =====
-- What the picture leaves in the frame buffer.
use tiny_os64v.Base.{
  ℕ, zero, suc, ◌+◌, ◌*◌, ◌<◌, ◌≤◌, ◌^◌, List, ◌∷◌, Option, some, u32, ◌⊎◌, inl, inr, ◌≡◌, ◌≢◌,
  refl, ap, arith, ◌∙◌, subst,
}
use native.Mathlib.Decide.{ℕ_discrete}
use native.Mathlib.Nat.{mul-le-mul_left, mul-suc}
use tiny_os64v.Hda.World.{Event, World, record_event}
use tiny_os64v.Hda.Stream.Writes.{last_store}
use tiny_os64v.Start.{pure, need, ◌>>=◌, ◌>>◌, store_word}
use tiny_os64v.Start.Picture.{
  Floats, iterations, pixel_index, pixel, row_loop, picture_loop, mandelbrot,
}
use tiny_os64v.Start.Picture.Colours.{colour, rescale_lem, iterations_bound}

last_store-same : (a v : ℕ) (log : List Event) → last_store a (Event.store 4 a v ∷ log) ≡ some v
last_store-same a v log = ground arith

last_store-other :
    (a b v : ℕ) (log : List Event)
    → a ≢ b
    → last_store b (Event.store 4 a v ∷ log) ≡ last_store b log
last_store-other a b v log h = ground (arith, h)

module _ (fl : Floats) (width height frame_buffer : ℕ) where
  abbrev pub at : (x y : ℕ) → ℕ
  at x y = frame_buffer + 4 * (x + width * y)

  abbrev pub colour_at : (x y : ℕ) → ℕ
  colour_at x y = u32 (colour fl (iterations fl width height x y))

  abbrev painted : (x y : ℕ) → World → World
  painted x y w = record_event (Event.store 4 (at x y) (colour_at x y)) w

  pixel_lem :
      (x y : ℕ) (w : World)
      → x + width * y < 2 ^ 31
      → pixel fl width height frame_buffer x y w ≡ some (tt, painted x y w)
  unfolding pixel need store_word ◌>>=◌
  pixel_lem x y w h =
      let index : pixel_index width x y ≡ some (x + width * y) = ground (arith, h) in
      rw
        (
          rescale_lem fl (iterations fl width height x y) (iterations_bound fl width height x y),
          index,
        )
        refl

  -- How a row ends, `left` pixels from `x` on.
  record Row (left x y : ℕ) (w : World) (r : Option (Unit {0} × World)) : Type 0 where
    world : World
    returns : r ≡ some (tt, world)
    inside : (i : ℕ) → x ≤ i → i < x + left → last_store (at i y) world.log ≡ some (colour_at i y)
    outside :
        (a : ℕ) → (a < at x y) ⊎ (at (x + left) y ≤ a) → last_store a world.log ≡ last_store a w.log

  row_loop-Row :
      (left x y : ℕ) (w : World)
      → x + left + width * y ≤ 2 ^ 31
      → Row left x y w (row_loop fl width height frame_buffer left x y w)
  unfolding row_loop pure ◌>>◌
  row_loop-Row zero x y w fits = record {
    world = w;
    returns = refl;
    inside = λ i lo hi. absurd (omega (arith, lo, hi));
    outside = λ a h. refl;
  }
  row_loop-Row (suc left) x y w fits =
      let rest = row_loop-Row left (x + 1) y (painted x y w) (omega (arith, fits)) in
      rw (pixel_lem x y w (omega (arith, fits))) (record {
        world = rest.world;
        returns = rest.returns;
        inside = λ i lo hi. elim (ℕ_discrete x i) [
          | yes same ↦
              subst (λ k. last_store (at k y) rest.world.log ≡ some (colour_at k y)) same
                (rest.outside (at x y) (inl (omega arith))
                  ∙ last_store-same (at x y) (colour_at x y) w.log)
          | no other ↦ rest.inside i (omega (arith, lo, other)) (omega (arith, hi))
        ];
        outside = λ a h.
            rest.outside a
              (elim h [ inl lt ↦ inl (omega (arith, lt)) | inr le ↦ inr (omega (arith, le)) ])
            ∙ last_store-other (at x y) a (colour_at x y) w.log (elim h [
              | inl lt ↦ λ e. absurd (omega (arith, lt, e))
              | inr le ↦ λ e. absurd (omega (arith, le, e))
            ]);
      })

  -- How the picture ends, `left` rows from row `y` on.
  record Rows (left y : ℕ) (w : World) (r : Option (Unit {0} × World)) : Type 0 where
    world : World
    returns : r ≡ some (tt, world)
    inside :
        (i j : ℕ)
        → i < width
        → y ≤ j
        → j < y + left
        → last_store (at i j) world.log ≡ some (colour_at i j)
    outside :
        (a : ℕ) → (a < at 0 y) ⊎ (at 0 (y + left) ≤ a) → last_store a world.log ≡ last_store a w.log

  row_start : (y : ℕ) → width * (y + 1) ≡ width * y + width
  row_start y = ap (λ k. width * k) {x = y + 1} {y = suc y} (omega arith) ∙ mul-suc width y

  picture_loop-Rows :
      (left y : ℕ) (w : World)
      → width * (y + left) ≤ 2 ^ 31
      → Rows left y w (picture_loop fl width height frame_buffer left y w)
  unfolding picture_loop pure ◌>>◌
  picture_loop-Rows zero y w fits = record {
    world = w;
    returns = refl;
    inside = λ i j _ lo hi. absurd (omega (arith, lo, hi));
    outside = λ a h. refl;
  }
  picture_loop-Rows (suc left) y w fits =
      let below : width * (y + 1) ≤ width * (y + suc left) = mul-le-mul_left width (omega arith) in
      let start = row_start y in
      let row = row_loop-Row width 0 y w (omega (arith, fits, below, start)) in
      let end : width * (y + 1 + left) ≡ width * (y + suc left) =
        ap (λ k. width * k) (omega arith) in
      let rest = picture_loop-Rows left (y + 1) row.world (omega (arith, fits, end)) in
      rw row.returns (record {
        world = rest.world;
        returns = rest.returns;
        inside = λ i j lt lo hi. elim (ℕ_discrete y j) [
          | yes same ↦
              subst (λ k. last_store (at i k) rest.world.log ≡ some (colour_at i k)) same
                (rest.outside (at i y) (inl (omega (arith, start, lt)))
                  ∙ row.inside i (omega arith) (omega (arith, lt)))
          | no other ↦ rest.inside i j lt (omega (arith, lo, other)) (omega (arith, hi))
        ];
        outside = λ a h.
            rest.outside a (elim h [
              | inl lt ↦ inl (omega (arith, lt, start))
              | inr le ↦ inr (omega (arith, le, end))
            ])
            ∙ row.outside a (elim h [
              | inl lt ↦ inl (omega (arith, lt))
              | inr le ↦ inr (omega (arith, le, start, below))
            ]);
      })

-- What a picture leaves: each pixel's word holds the grey of the table at the number of iterations of
-- its point, and what lies outside the frame buffer is as before.
pub record IsPicture (fl : Floats) (width height frame_buffer : ℕ) (w : World)
    (r : Option (Unit {0} × World)) : Type 0 where
  pub world : World
  pub returns : r ≡ some (tt, world)
  pub pixels :
      (x y : ℕ)
      → x < width
      → y < height
      → last_store (at fl width height frame_buffer x y) world.log
        ≡ some (colour_at fl width height frame_buffer x y)
  pub others :
      (a : ℕ)
      → (a < frame_buffer) ⊎ (frame_buffer + 4 * (width * height) ≤ a)
      → last_store a world.log ≡ last_store a w.log

-- Of at most 2^31 pixels, the picture is painted without a fault, whatever the floating-point
-- arithmetic: the table of colours has an entry for every number of iterations, each pixel's word
-- holds that entry for its own point in the end, and no address outside the frame buffer is stored
-- to.
pub mandelbrot-IsPicture :
    (fl : Floats) (width height frame_buffer : ℕ) (w : World)
    → width * height ≤ 2 ^ 31
    → IsPicture fl width height frame_buffer w (mandelbrot fl width height frame_buffer w)
unfolding mandelbrot
mandelbrot-IsPicture fl width height frame_buffer w fits =
    let same : width * (0 + height) ≡ width * height = ap (λ k. width * k) (omega arith) in
    let zero_row : width * 0 ≡ 0 = omega arith in
    let rows =
      picture_loop-Rows fl width height frame_buffer height 0 w (omega (arith, fits, same)) in
    record {
      world = rows.world;
      returns = rows.returns;
      pixels = λ x y lt below. rows.inside x y lt (omega arith) (omega (arith, below));
      others = λ a h. rows.outside a (elim h [
        | inl lt ↦ inl (omega (arith, lt, zero_row))
        | inr le ↦ inr (omega (arith, le, same))
      ]);
    }
