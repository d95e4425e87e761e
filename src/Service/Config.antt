-- ===== src/Service/Config.antt =====
-- `svl_service_config_setup` and `_setup_default` of svlynx/service.c: how many buffers, events,
-- commands and write requests a service wants, and how many bytes. `size_t` has 64 bits and wraps.
-- `Sizes` are the `sizeof`s of structures that are declared elsewhere or hold such a structure.
pub mod Exact
use serverlynx.Prelude.{
  ℕ, ◌+◌, ◌*◌, ◌/◌, ◌%◌, ◌^◌, Bool, ◌||◌, ◌==◌, if◌then◌else◌, Status, success, failure,
}

pub record Cfg : Type 0 where
  pub link_concurrency : ℕ
  pub link_buffer_mult : ℕ
  pub link_buffer_outbound_count : ℕ
  pub link_buffer_outbound_size : ℕ
  pub link_buffer_inbound_count : ℕ
  pub link_buffer_inbound_size : ℕ
  pub event_mult : ℕ
  pub event_count : ℕ
  pub cmd_mult : ℕ
  pub cmd_count : ℕ
  pub write_req_mult : ℕ
  pub write_req_count : ℕ
  pub total_heap_size : ℕ

pub record Sizes : Type 0 where
  pub event_base : ℕ
  pub cmd_base : ℕ
  pub write_req : ℕ

infixl 65 ◌+64◌
infixl 70 ◌*64◌
abbrev pub ◌+64◌ : ℕ → ℕ → ℕ
a +64 b = (a + b) % 2 ^ 64

abbrev pub ◌*64◌ : ℕ → ℕ → ℕ
a *64 b = (a * b) % 2 ^ 64

abbrev pub config_default_instance : Cfg
config_default_instance = record {
  link_concurrency = 100;
  link_buffer_mult = 4;
  link_buffer_outbound_count = 0;
  link_buffer_outbound_size = 65536;
  link_buffer_inbound_count = 0;
  link_buffer_inbound_size = 65536;
  event_mult = 4;
  event_count = 0;
  cmd_mult = 4;
  cmd_count = 0;
  write_req_mult = 4;
  write_req_count = 0;
  total_heap_size = 0;
}

-- The guards of `config_setup`: one of the seven fields that it reads is zero.
abbrev pub lacks_field : Cfg → Bool
lacks_field c =
    c.link_concurrency == 0
    || (c.link_buffer_mult == 0
        || (c.link_buffer_outbound_size == 0
            || (c.link_buffer_inbound_size == 0
                || (c.event_mult == 0 || (c.cmd_mult == 0 || c.write_req_mult == 0)))))

counted : Cfg → Cfg
counted c = record c {
  link_buffer_inbound_count = c.link_buffer_mult *64 c.link_concurrency;
  link_buffer_outbound_count = c.link_buffer_mult *64 c.link_concurrency;
  event_count = c.event_mult *64 c.link_concurrency;
  cmd_count = c.cmd_mult *64 c.link_concurrency;
  write_req_count = c.write_req_mult *64 c.link_concurrency;
}

-- The sum before the last `+=`.
summed : Sizes → Cfg → ℕ
summed z c =
    (c.link_buffer_outbound_size *64 c.link_buffer_outbound_count)
    +64 (c.link_buffer_inbound_size *64 c.link_buffer_inbound_count)
    +64 (c.event_count *64 z.event_base)
    +64 (c.cmd_count *64 z.cmd_base)
    +64 (c.write_req_count *64 z.write_req)

unfoldable pub config_setup : Sizes → Cfg → Status × Cfg
unfolding counted summed
config_setup z c =
    if lacks_field c
    then (failure, c)
    else let d = counted c in
      let sum = summed z d in (success, record d { total_heap_size = sum +64 (sum / 2) })

unfoldable pub config_setup_default : Sizes → Cfg → ℕ → Status × Cfg
config_setup_default z c max_ccu =
    if max_ccu == 0
    then (failure, c)
    else config_setup z (record config_default_instance { link_concurrency = max_ccu })
