-- ===== src/Bench.antt =====
-- A bench to run the models on: a link that loses nothing, a USB bus on which everything succeeds, and
-- a few kinds of messages. The tests of the other modules use it.
use fpga_device_server.Common.{
  ℕ, ◌+◌, ◌-◌, ◌≤◌, ◌<◌, ◌^◌, ◌≡◌, refl, sym, ap, true, false, Option, none, some, List, [], ◌∷◌,
  ◌++◌, map, arith, if◌then◌else◌, ltb, length, take, drop, length-take, take-all, Bool-cases, inl,
  inr,
}
use fpga_device_server.Common.Int.{pos}
use fpga_device_server.Device.{Link}
use fpga_device_server.Device.Handle.{Ftdi}
use fpga_device_server.Manager.{Host, Manager}
use fpga_device_server.Requests.{Msgpack}

-- The bytes sent, the bytes still to be read, and the bytes read.
abbrev pub Wire : Type 0
Wire = List ℕ × List ℕ × List ℕ

pub all_sent :
    (f : Wire) (bs : List ℕ)
    → (k : ℕ) × (k ≤ length bs)
      × (f.0 ++ bs ≡ f.0 ++ take k bs)
      × ((n : ℕ) → pos (length bs) ≡ pos n → k ≡ n)
all_sent f bs = (
  length bs,
  omega arith,
  ap (◌++◌ f.0) (sym (take-all (length bs) bs (omega arith))),
  λ n e. ground arith,
)

pub read_fits_wire :
    (f : Wire) (size : ℕ) (bs : List ℕ) → some (take size f.1) ≡ some bs → length bs ≤ size
read_fits_wire f size bs e =
    let same : take size f.1 ≡ bs = cc in rw (← same) (omega (arith, length-take size f.1))

pub read_gets_wire :
    (f : Wire) (size : ℕ) (bs : List ℕ)
    → some (take size f.1) ≡ some bs
    → f.2 ++ take size f.1 ≡ f.2 ++ bs
read_gets_wire f size bs e = cc

abbrev pub wire_link : Link Wire
wire_link = record {
  write_data = λ f bs. (pos (length bs), (f.0 ++ bs, f.1, f.2));
  read_data = λ f size. (some (take size f.1), (f.0, drop size f.1, f.2 ++ take size f.1));
  sent = λ f. f.0;
  got = λ f. f.2;
  write_reads_nothing = λ f bs. refl;
  read_gets = read_gets_wire;
  write_prefix = all_sent;
  read_sends_nothing = λ f size. refl;
  read_fits = read_fits_wire;
}

-- The numbers of handles and of claims.
abbrev pub Bus : Type 0
Bus = ℕ × ℕ

abbrev pub bus_ftdi : Ftdi Wire Bus
bus_ftdi = record {
  new = λ w. (some ([], [], []), (w.0 + 1, w.1));
  set_interface = λ i f. f;
  usb_open_dev = λ dev f w. (true, f, (w.0, w.1 + 1));
  usb_purge_buffers = λ f w. (true, f, w);
  usb_reset = λ f w. (true, f, w);
  set_bitmode = λ mask mode f w. (true, f, w);
  set_latency_timer = λ ms f w. (true, f, w);
  usb_close = λ f w. (f, (w.0, w.1 - 1));
  free = λ f w. (w.0 - 1, w.1);
  handles = λ w. w.0;
  claims = λ w. w.1;
  new_counts = λ w. (refl, refl);
  open_counts = λ dev f w. (refl, refl);
  purge_counts = λ f w. (refl, refl);
  reset_counts = λ f w. (refl, refl);
  bitmode_counts = λ mask mode f w. (refl, refl);
  latency_counts = λ ms f w. (refl, refl);
  close_counts = λ f w. (refl, refl);
  free_counts = λ f w. (refl, refl);
}

-- Every device has a serial number of its own, and programming fails on the first device only.
abbrev pub bus_host : Host Bus
bus_host = record {
  serial_of = λ dev w. (some (65 ∷ dev ∷ []), w);
  program = λ dev fname w. (ltb 0 dev, w);
}

abbrev pub empty_manager : Manager Wire Bus
empty_manager = record {
  world = (0, 0);
  heap = λ p. record {
    name = [];
    usb_device = 0;
    ftdi = none;
    tracked_regs = [];
    has_callback = false;
    changes = [];
  };
  next = 0;
  device_map = [];
  serial_map = [];
  descriptions =
      record {
        name = 70 ∷ [];
        serial_prefix = 65 ∷ [];
        fname_bitfile = [];
        watchlist = (1, 2) ∷ [];
      }
      ∷ [];
  added_cb = true;
  removed_cb = true;
  reg_change_cb = true;
  events = [];
}

-- Numbers, texts, and a message of a command, a serial number and numbers.
pub data Item : Type 0 where
  num : ℕ → Item
  text : List ℕ → Item
  call : List ℕ → List ℕ → List ℕ → Item

abbrev item_array : Item → Option (List Item)
item_array (num n) = none
item_array (text s) = none
item_array (call cmd serial ns) = some (text cmd ∷ text serial ∷ map num ns)

abbrev item_string : Item → Option (List ℕ)
item_string (num n) = none
item_string (text s) = some s
item_string (call cmd serial ns) = none

abbrev item_uint : ℕ → Item → Option ℕ
item_uint w (num n) = if ltb n (2 ^ w) then some n else none
item_uint w (text s) = none
item_uint w (call cmd serial ns) = none

pub item_uint_fits : (w : ℕ) (o : Item) (n : ℕ) → item_uint w o ≡ some n → n < 2 ^ w
item_uint_fits w (num k) n e = elim (Bool-cases (ltb k (2 ^ w))) [
  | inl small ↦ let same : some k ≡ some n = rw small at e in let k_is : k ≡ n = cc in ground arith
  | inr large ↦ absurd (ground (arith, rw large at e))
]
item_uint_fits w (text s) n e = absurd (ground arith)
item_uint_fits w (call cmd serial ns) n e = absurd (ground arith)

abbrev pub item_msgpack : Msgpack Item
item_msgpack = record {
  as_array = item_array;
  as_string = item_string;
  as_uint = item_uint;
  bin = λ o. none;
  uint_fits = item_uint_fits;
}
