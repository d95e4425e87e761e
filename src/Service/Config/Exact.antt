-- ===== src/Service/Config/Exact.antt =====
-- Where the configuration's arithmetic does not wrap, and where it is refused.
use serverlynx.Prelude.{
  ℕ, ◌+◌, ◌*◌, ◌/◌, ◌%◌, ◌^◌, ◌≤◌, ◌<◌, ◌≡◌, refl, ◌⊎◌, false, success, failure, arith, ◌==◌,
}
use serverlynx.Service.Config.{Cfg, Sizes, ◌+64◌, ◌*64◌, config_setup, config_setup_default}

-- The bytes that `n` links of the default configuration want, before the half that is added.
abbrev pub default_bytes : Sizes → ℕ → ℕ
default_bytes z n = 524288 * n + 4 * n * z.event_base + 4 * n * z.cmd_base + 4 * n * z.write_req

times_bound : (a b : ℕ) → a ≤ 2 ^ 34 → b ≤ 2 ^ 16 → a * b ≤ 2 ^ 50
times_bound a b ha hb = let h : a * b ≤ 2 ^ 34 * 2 ^ 16 = grind arith in omega arith

four_exact : (n : ℕ) → n ≤ 2 ^ 32 → 4 *64 n ≡ 4 * n
four_exact n h = omega arith

-- The sum of `summed` and of the last `+=`, over any three products that are small.
heap_exact :
    (n x y w : ℕ)
    → n ≤ 2 ^ 32
    → x ≤ 2 ^ 50
    → y ≤ 2 ^ 50
    → w ≤ 2 ^ 50
    → let sum =
        (65536 *64 (4 * n)) +64 (65536 *64 (4 * n)) +64 x % 2 ^ 64 +64 y % 2 ^ 64 +64 w % 2 ^ 64 in
      sum +64 (sum / 2) ≡ (524288 * n + x + y + w) + (524288 * n + x + y + w) / 2
heap_exact n x y w h hx hy hw = omega arith

-- For up to 2^32 links and structures of up to 2^16 bytes no product or sum wraps: four buffers each
-- way, events, commands and write requests are counted for every link, and the heap is the exact
-- sum of their sizes and half as much again.
pub config_setup_default_exact :
    (z : Sizes) (c : Cfg) (n : ℕ)
    → 0 < n
    → n ≤ 2 ^ 32
    → z.event_base ≤ 2 ^ 16
    → z.cmd_base ≤ 2 ^ 16
    → z.write_req ≤ 2 ^ 16
    → let (r, d) = config_setup_default z c n in
      (r ≡ success)
      × (d.link_buffer_inbound_count ≡ 4 * n)
      × (d.link_buffer_outbound_count ≡ 4 * n)
      × (d.event_count ≡ 4 * n)
      × (d.cmd_count ≡ 4 * n)
      × (d.write_req_count ≡ 4 * n)
      × (d.total_heap_size ≡ default_bytes z n + default_bytes z n / 2)
unfolding config_setup_default config_setup
config_setup_default_exact z c n pos small he hc hw =
    let nz : (n == 0) ≡ false = ground arith in
    rw nz (
      rw (four_exact n small) (
        refl,
        refl,
        refl,
        refl,
        refl,
        refl,
        heap_exact n (4 * n * z.event_base) (4 * n * z.cmd_base) (4 * n * z.write_req) small
            (times_bound (4 * n) z.event_base (omega arith) he)
            (times_bound (4 * n) z.cmd_base (omega arith) hc)
            (times_bound (4 * n) z.write_req (omega arith) hw),
      ))

-- `config_setup` fails exactly when a multiplier, a size or the number of links is zero, and then the
-- configuration is as it was; otherwise only the five counts and the heap size change.
pub config_setup_lem :
    (z : Sizes) (c : Cfg)
    → let (r, d) = config_setup z c in
      ((r ≡ failure)
        × ((c.link_concurrency ≡ 0)
            ⊎ (c.link_buffer_mult ≡ 0)
            ⊎ (c.link_buffer_outbound_size ≡ 0)
            ⊎ (c.link_buffer_inbound_size ≡ 0)
            ⊎ (c.event_mult ≡ 0)
            ⊎ (c.cmd_mult ≡ 0)
            ⊎ (c.write_req_mult ≡ 0))
        × (d ≡ c))
      ⊎ ((r ≡ success)
          × (0 < c.link_concurrency)
          × (0 < c.link_buffer_mult)
          × (0 < c.link_buffer_outbound_size)
          × (0 < c.link_buffer_inbound_size)
          × (0 < c.event_mult)
          × (0 < c.cmd_mult)
          × (0 < c.write_req_mult)
          × (d ≡ record c {
            link_buffer_outbound_count = d.link_buffer_outbound_count;
            link_buffer_inbound_count = d.link_buffer_inbound_count;
            event_count = d.event_count;
            cmd_count = d.cmd_count;
            write_req_count = d.write_req_count;
            total_heap_size = d.total_heap_size;
          }))
unfolding config_setup
config_setup_lem z c = ground arith
