-- ===== src/Shared/Torrent/Poster.antt =====
-- shared/torrent.go: `GetTorrentPoster`, with the arithmetic of its thumbnail.
pub mod Bounds
use ttobserver_v.Base.{
  ℕ, ◌+◌, ◌-◌, ◌*◌, ◌/◌, ◌%◌, ◌^◌, String, Bool, Option, none, some, [], M, pure, ◌>>=◌, ltb, leb,
  if◌then◌else◌, ◌==◌, string_eq, ◌||◌,
}
use ttobserver_v.Shared.Errors.{Result, Fault, ok, err, invalid_image_url}
use ttobserver_v.Shared.Database.{Bytes}
use ttobserver_v.Shared.Torrent.{Web, Response, ErrorText, build_error}

-- Go's int, as the bit pattern of 64 bits: a value of 2^63 or more is negative.
abbrev is_negative : ℕ → Bool
is_negative a = leb (2 ^ 63) a

abbrev negate : ℕ → ℕ
negate a = (2 ^ 64 - a) % 2 ^ 64

-- `a < b` on int
unfoldable pub less : ℕ → ℕ → Bool
less a b = ltb ((a + 2 ^ 63) % 2 ^ 64) ((b + 2 ^ 63) % 2 ^ 64)

-- `a * b` on int
unfoldable pub times : ℕ → ℕ → ℕ
times a b = (a * b) % 2 ^ 64

-- `a / b` on int, which rounds to zero
unfoldable pub quotient : ℕ → ℕ → ℕ
quotient a b =
    if is_negative a
    then (if is_negative b then negate a / negate b else negate (negate a / b))
    else if is_negative b
    then negate (a / negate b)
    else a / b

unfoldable pub at_least_one : ℕ → ℕ
unfolding less
at_least_one n = if less n 1 then 1 else n

-- `if origX > maxSize`: the pair is newX, newY
fit_width : ℕ → ℕ → ℕ → ℕ × ℕ
fit_width max_size x y =
    if less max_size x then (max_size, at_least_one (quotient (times y max_size) x)) else (x, y)

-- `if newY > maxSize`
fit_height : ℕ → ℕ × ℕ → ℕ × ℕ
fit_height max_size (x, y) =
    if less max_size y then (at_least_one (quotient (times x max_size) y), max_size) else (x, y)

-- The size of the thumbnail, for a picture of width `x` and height `y`.
unfoldable pub thumb_size : ℕ → ℕ → ℕ → ℕ × ℕ
unfolding fit_width fit_height
thumb_size max_size x y =
    if less max_size x || less max_size y
    then fit_height max_size (fit_width max_size x y)
    else (x, y)

-- Outside the program: the codecs and the scaler. The body of a response that breaks off is an
-- error for the decoder too.
pub record Codec : Type 1 where
  pub Picture : Type 0
  pub decode_image : Bytes × Fault → Option Picture × Fault
  pub width : Picture → ℕ
  pub height : Picture → ℕ
  pub scale : Picture → ℕ → ℕ → Picture
  pub encode_jpeg : Picture → Result Bytes

abbrev split : Result Bytes → Bytes × Fault
split (ok b) = (b, none)
split (err e) = ([], some e)

module _ (c : Codec) where
  open c use {Picture, decode_image, width, height, scale, encode_jpeg}

  shrink : ℕ → Picture → Picture
  unfolding thumb_size
  shrink max_size img =
      if less max_size (width img) || less max_size (height img)
      then (let size = thumb_size max_size (width img) (height img) in scale img size.0 size.1)
      else img

  unfoldable pub thumbnail : ℕ → Option Picture × Fault → Bytes × Fault
  unfolding shrink
  thumbnail max_size (some img, none) = split (encode_jpeg (shrink max_size img))
  thumbnail max_size (_, e) = ([], e)

  module _ {W : Type 0} (web : Web W) where
    poster_of : ErrorText → ℕ → Option Response × Fault → Bytes × Fault
    unfolding thumbnail build_error
    poster_of text max_size (some resp, none) =
        if ltb resp.status_code 400
        then (if ltb 0 max_size then thumbnail max_size (decode_image resp.body) else resp.body)
        else ([], some (build_error text (some resp) none "get poster"))
    poster_of text max_size (resp, e) = ([], some (build_error text resp e "get poster"))

    unfoldable pub get_torrent_poster : ErrorText → String → ℕ → M W (Bytes × Fault)
    unfolding poster_of
    get_torrent_poster text url max_size =
        if url == ""
        then pure ([], some invalid_image_url)
        else (do r ← web.get url; pure (poster_of text max_size r))
