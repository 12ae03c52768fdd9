-- ===== src/Start/Picture.antt =====
-- The picture of src/main.cpp: `mysqrt`, `mktable`, `rescale`, `MyComplex` and `mandelbrot`.
pub mod Colours
pub mod Pixels
use tiny_os64v.Base.{
  ℕ, zero, suc, ◌+◌, ◌*◌, ◌^◌, bit_or, List, [], ◌∷◌, Option, none, some, Bool, if◌then◌else◌, ltb,
  get_elem?, u8, u32, u64, ◌<<<◌,
}
use tiny_os64v.Start.{W, pure, need, ◌>>=◌, ◌>>◌, store_word}

-- The arithmetic of the type `float`, which the processor defines: the literals are those of the
-- code, `of_int` and `to_u8` are its conversions, and `less` is `<`.
pub record Floats : Type 1 where
  pub Float : Type 0
  pub zero : Float
  pub minus_one : Float
  pub minus_one_and_half : Float
  pub two : Float
  pub four : Float
  pub tiny : Float
  pub of_int : ℕ → Float
  pub to_u8 : Float → ℕ
  pub negate : Float → Float
  pub add : Float → Float → Float
  pub subtract : Float → Float → Float
  pub multiply : Float → Float → Float
  pub divide : Float → Float → Float
  pub less : Float → Float → Bool
  pub at_least : Float → Float → Bool

-- The value of an entry, with all four bytes the same.
unfoldable pub grey : ℕ → ℕ
grey v = u32 (bit_or (bit_or (bit_or (v <<< 24) (v <<< 16)) (v <<< 8)) v)

-- `x+width*y` is an `int`, whose overflow is a fault.
abbrev pub pixel_index : (width x y : ℕ) → Option ℕ
pixel_index width x y = if ltb (x + width * y) (2 ^ 31) then some (x + width * y) else none

module _ (fl : Floats) where
  unfoldable pub absolute : fl.Float → fl.Float
  absolute v = if fl.less v fl.zero then fl.negate v else v

  -- The loop of `mysqrt`, with `maxiter` at `left`.
  unfoldable pub sqrt_loop : (left : ℕ) (x guess : fl.Float) → fl.Float
  sqrt_loop zero x guess = guess
  sqrt_loop (suc left) x guess =
      let rest = sqrt_loop left x (fl.divide (fl.add guess (fl.divide x guess)) fl.two) in
      if fl.less fl.tiny (absolute (fl.subtract (fl.multiply guess guess) x)) then rest else guess

  unfoldable pub mysqrt : fl.Float → fl.Float
  mysqrt x = sqrt_loop 20 x x

  -- The entries of the table from entry `i` on.
  unfoldable pub table_from : (left i : ℕ) → List ℕ
  table_from zero i = []
  table_from (suc left) i =
      grey (u8 (fl.to_u8 (mysqrt (fl.of_int (i * 255))))) ∷ table_from left (i + 1)

  unfoldable pub mktable : List ℕ
  mktable = table_from 256 0

  unfoldable pub rescale : ℕ → Option ℕ
  rescale v = get_elem? mktable (u8 v)

  pub record MyComplex : Type 0 where
    pub x : fl.Float
    pub y : fl.Float

  abbrev pub complex : fl.Float → fl.Float → MyComplex
  complex a b = record { x = a; y = b }

  unfoldable pub plus : MyComplex → MyComplex → MyComplex
  plus a b = complex (fl.add a.x b.x) (fl.add a.y b.y)

  unfoldable pub minus : MyComplex → MyComplex → MyComplex
  minus a b = complex (fl.subtract a.x b.x) (fl.subtract a.y b.y)

  unfoldable pub times : MyComplex → MyComplex → MyComplex
  times a b =
      complex (fl.subtract (fl.multiply a.x b.x) (fl.multiply a.y b.y))
        (fl.add (fl.multiply a.x b.y) (fl.multiply a.y b.x))

  unfoldable pub mag2 : MyComplex → fl.Float
  mag2 a = fl.add (fl.multiply a.x a.x) (fl.multiply a.y a.y)

  -- The loop of a pixel, with `left` rounds ahead of the maximum.
  unfoldable pub iterate : (left : ℕ) (c z : MyComplex) (iteration : ℕ) → ℕ
  iterate zero c z iteration = iteration
  iterate (suc left) c z iteration =
      let z' = plus (times z z) c in
      let rest = iterate left c z' (iteration + 1) in
      if fl.at_least (mag2 z') fl.four then iteration else rest

  unfoldable pub point : (width height x y : ℕ) → MyComplex
  point width height x y =
      complex
        (fl.add fl.minus_one_and_half
          (fl.divide (fl.multiply fl.two (fl.of_int x)) (fl.of_int width)))
        (fl.add fl.minus_one (fl.divide (fl.multiply fl.two (fl.of_int y)) (fl.of_int height)))

  unfoldable pub iterations : (width height x y : ℕ) → ℕ
  iterations width height x y = iterate 255 (point width height x y) (complex fl.zero fl.zero) 0

  module _ (width height frame_buffer : ℕ) where
    unfoldable pub pixel : (x y : ℕ) → W (Unit {0})
    pixel x y = do
      colour ← need (rescale (iterations width height x y))
      index ← need (pixel_index width x y)
      store_word (frame_buffer + 4 * index) colour

    -- The rest of row `y`, `left` pixels from `x` on.
    unfoldable pub row_loop : (left x y : ℕ) → W (Unit {0})
    row_loop zero x y = pure tt
    row_loop (suc left) x y = do pixel x y; row_loop left (x + 1) y

    -- The rows from `y` on.
    unfoldable pub picture_loop : (left y : ℕ) → W (Unit {0})
    picture_loop zero y = pure tt
    picture_loop (suc left) y = do row_loop width 0 y; picture_loop left (y + 1)

  -- The width and the height are not negative.
  unfoldable pub mandelbrot : (width height frame_buffer : ℕ) → W (Unit {0})
  mandelbrot width height frame_buffer = picture_loop width height frame_buffer height 0
