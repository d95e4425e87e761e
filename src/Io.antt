-- ===== src/Io.antt =====
-- The IO thread's callbacks of svlynx/service_internal.c, each a function of the service. This file
-- has what they share: a code that jumps to `cleanup` on failure, and reads and writes of links.
pub mod Ensures
pub mod Links
pub mod Stocks
pub mod Sound
pub mod Succeeds
pub mod Blind
pub mod Holders
pub mod Closing
pub mod Receiving
pub mod Sending
pub mod Connecting
pub mod Commands
use serverlynx.Prelude.{
  ℕ, ℤ, pos, negsuc, zero, suc, Bool, true, false, Option, none, some, if◌then◌else◌,
}
use serverlynx.Tn.{Tn}
use serverlynx.Tn.Uv.{CloseCb}
use serverlynx.Link.{Link, update}
use serverlynx.Service.{Service}

abbrev pub is_zero : ℤ → Bool
is_zero (pos zero) = true
is_zero _ = false

-- Of a call whose result is ignored: what it leaves, or what was there before if it failed.
abbrev pub kept {ℓ} : {A : Type ℓ} → Option A → A → A
kept none old = old
kept (some a) old = a

-- What guarded code leaves: its value, or a jump to `cleanup`, with the service in either case.
pub data Ran (T : Tn) (A : Type 0) : Type 0 where
  ok : A → Service T → Ran T A
  jump : Service T → Ran T A

abbrev pub Io : Tn → Type 0 → Type 0
Io T A = Service T → Ran T A

infixl 5 ◌>>=◌ ◌>>◌
abbrev pub ◌>>=◌ : {T : Tn} {A B : Type 0} → Io T A → (A → Io T B) → Io T B
◌>>=◌ m f s = elim (m s) [ ok a t ↦ f a t | jump t ↦ jump t ]

abbrev pub ◌>>◌ : {T : Tn} {B : Type 0} → Io T (Unit {0}) → Io T B → Io T B
m >> k = m >>= λ _. k

module _ {T : Tn} where
  abbrev pub pure : {A : Type 0} → A → Io T A
  pure a s = ok a s

  abbrev pub modify : (Service T → Service T) → Io T (Unit {0})
  modify f s = ok tt (f s)

  -- `TN_GUARD_CLEANUP(ret = uv_...)`: any code but zero jumps.
  abbrev pub guard_uv : (T.uv.World → ℤ × T.uv.World) → Io T (Unit {0})
  guard_uv f s =
      let (code, w) = f s.world in
      if is_zero code then ok tt (record s { world = w }) else jump (record s { world = w })

  -- The same for a call that fills in a value, `none` if it fails.
  abbrev pub guard_uv_value : (T.uv.World → Option ℕ × T.uv.World) → Io T ℕ
  guard_uv_value f s =
      let (r, w) = f s.world in
      elim r [ none ↦ jump (record s { world = w }) | some a ↦ ok a (record s { world = w }) ]

  abbrev pub guard_some : {A : Type 0} → Option A → Io T A
  guard_some none s = jump s
  guard_some (some a) s = ok a s

  -- Guarded code, what runs at `cleanup`, and what runs after it otherwise.
  abbrev pub attempt :
      {A : Type 0}
      → Io T A
      → (Service T → Service T)
      → (A → Service T → Service T)
      → Service T
      → Service T
  attempt m cleanup after s = elim (m s) [ ok a t ↦ after a t | jump t ↦ cleanup t ]

  abbrev pub link_at : Service T → ℕ → Link
  link_at s p = s.link_list.client_map p

  abbrev pub set_link : Service T → ℕ → Link → Service T
  set_link s p l = record s {
    link_list = record s.link_list { client_map = update s.link_list.client_map p l };
  }

  abbrev pub uv_close : Service T → ℕ → CloseCb → Service T
  uv_close s h cb = record s { world = T.uv.close s.world h cb }
