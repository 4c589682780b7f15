-- ===== src/IoFtdi/Stream.antt =====
-- The stream of bytes from the cable (src/devices/xc3sprog/ioftdi.cpp), and methods that add to it one after
-- the other.
use fpga_device_server.Common.{
  ◌≡◌, sym, ap, ◌∙◌, ℕ, ◌<◌, Bool, List, [], ◌++◌, append_assoc, append-nil, length,
}
use fpga_device_server.Common.Effect.{Result, ok, err, after, ◌>>=◌}
use fpga_device_server.Device.{Link}
use fpga_device_server.IoFtdi.{tx_buf, Cable, CableError, Method}
use fpga_device_server.IoFtdi.Mpsse.{Clock, Runs, Runs-append, done}

-- There is room in the buffer, so the next byte is within it.
abbrev pub Fits : {F : Type 0} → Cable F → Type 0
Fits c = length c.usbuf < tx_buf

module _ {F : Type 0} (link : Link F) where
  -- The bytes that have gone out, and those that are to go.
  unfoldable pub stream : Cable F → List ℕ
  stream c = link.sent c.ftdi_handle ++ c.usbuf

  -- A method that returns has added just these bytes; and it never overfills the buffer.
  unfoldable pub Sends : {A : Type 0} → List ℕ → Cable F → Result CableError A × Cable F → Type 0
  Sends xs c (ok a, c') = Fits c' × (stream c' ≡ stream c ++ xs)
  Sends xs c (err e, c') = Fits c'

  -- A method that returns has added bytes that make these clocks, and have moved TMS so.
  unfoldable pub Emits :
      {A : Type 0} → Bool → List Clock → Bool → Cable F → Result CableError A × Cable F → Type 0
  Emits l cs m c (ok a, c') =
      (xs : List ℕ) × Runs l xs cs m × Fits c' × (stream c' ≡ stream c ++ xs)
  Emits l cs m c (err e, c') = Fits c'

  -- From one state to the next.
  pub Sends-trans :
      {A : Type 0} (xs ys : List ℕ) (c c' : Cable F) (r : Result CableError A × Cable F)
      → stream c' ≡ stream c ++ xs
      → Sends ys c' r
      → Sends (xs ++ ys) c r
  unfolding Sends
  Sends-trans xs ys c c' (ok a, c'') e (fits, e') =
      (fits, e' ∙ ap (λ zs. zs ++ ys) e ∙ append_assoc (stream c) xs ys)
  Sends-trans xs ys c c' (err x, c'') e fits = fits

  pub Emits-trans :
      {A : Type 0} (l k m : Bool) (cs ds : List Clock) (xs : List ℕ) (c c' : Cable F)
      (r : Result CableError A × Cable F)
      → Runs l xs cs k
      → stream c' ≡ stream c ++ xs
      → Emits k ds m c' r
      → Emits l (cs ++ ds) m c r
  unfolding Emits
  Emits-trans l k m cs ds xs c c' (ok a, c'') runs e (ys, runs', fits, e') = (
    xs ++ ys,
    Runs-append runs runs',
    fits,
    e' ∙ ap (λ zs. zs ++ ys) e ∙ append_assoc (stream c) xs ys,
  )
  Emits-trans l k m cs ds xs c c' (err x, c'') runs e fits = fits

  -- A command that is sent whole makes its clocks.
  pub Sends-Emits :
      {A : Type 0} (l m : Bool) (cs : List Clock) (xs : List ℕ) (c : Cable F)
      (r : Result CableError A × Cable F)
      → Runs l xs cs m
      → Sends xs c r
      → Emits l cs m c r
  unfolding Sends Emits
  Sends-Emits l m cs xs c (ok a, c') runs (fits, e) = (xs, runs, fits, e)
  Sends-Emits l m cs xs c (err x, c') runs fits = fits

  -- Nothing more is sent.
  pub pure-Emits :
      {A : Type 0} (level : Bool) (a : A) (c : Cable F) → Fits c → Emits level [] level c (ok a, c)
  unfolding Emits
  pure-Emits level a c fits = ([], done level, fits, sym (append-nil (stream c)))

  pub pure-Sends : {A : Type 0} (a : A) (c : Cable F) → Fits c → Sends [] c (ok a, c)
  unfolding Sends
  pure-Sends a c fits = (fits, sym (append-nil (stream c)))

module _ {F : Type 0} (link : Link F) {A B : Type 0} where
  after-Sends :
      (xs ys : List ℕ) (c : Cable F) (r : Result CableError A × Cable F) (f : A → Method F B)
      → Sends link xs c r
      → ((a : A) (c' : Cable F) → Fits c' → Sends link ys c' (f a c'))
      → Sends link (xs ++ ys) c (after r.0 f r.1)
  unfolding Sends
  after-Sends xs ys c (ok a, c') f (fits, e) next =
      Sends-trans link xs ys c c' (f a c') e (next a c' fits)
  after-Sends xs ys c (err x, c') f fits next = fits

  pub Sends-bind :
      (xs ys : List ℕ) (c : Cable F) (m : Method F A) (f : A → Method F B)
      → Sends link xs c (m c)
      → ((a : A) (c' : Cable F) → Fits c' → Sends link ys c' (f a c'))
      → Sends link (xs ++ ys) c ((m >>= f) c)
  Sends-bind xs ys c m f first next = after-Sends xs ys c (m c) f first next

  after-Emits :
      (l k m : Bool) (cs ds : List Clock) (c : Cable F) (r : Result CableError A × Cable F)
      (f : A → Method F B)
      → Emits link l cs k c r
      → ((a : A) (c' : Cable F) → Fits c' → Emits link k ds m c' (f a c'))
      → Emits link l (cs ++ ds) m c (after r.0 f r.1)
  unfolding Emits
  after-Emits l k m cs ds c (ok a, c') f (xs, runs, fits, e) next =
      Emits-trans link l k m cs ds xs c c' (f a c') runs e (next a c' fits)
  after-Emits l k m cs ds c (err x, c') f fits next = fits

  pub Emits-bind :
      (l k m : Bool) (cs ds : List Clock) (c : Cable F) (n : Method F A) (f : A → Method F B)
      → Emits link l cs k c (n c)
      → ((a : A) (c' : Cable F) → Fits c' → Emits link k ds m c' (f a c'))
      → Emits link l (cs ++ ds) m c ((n >>= f) c)
  Emits-bind l k m cs ds c n f first next = after-Emits l k m cs ds c (n c) f first next
