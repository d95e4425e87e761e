-- ===== src/Tn/Cmds.antt =====
-- `tn_cmd_list_t` of `tn/cmd.h`: a fixed stock of commands, each either free, or ready and in the
-- queue from the main thread to the IO thread, or in the hands of who popped it. The three
-- command structures are one record, and a pointer to a command is the command.
use serverlynx.Prelude.{ℕ, ◌≡◌, List, [], ◌∷◌, ◌++◌, Option, none, some, count}

pub data CmdType : Type 0 where
  client_open client_close client_send : CmdType

pub record Cmd : Type 0 where
  pub id : ℕ
  pub type : CmdType
  pub client_id : ℕ
  pub endpoint : ℕ
  pub buffer : ℕ
  pub len : ℕ
  pub priv : ℕ

pub record CmdOps : Type 1 where
  pub Carrier : Type 0
  pub zeroed : Carrier
  pub setup : ℕ → Option Carrier
  pub free_pop : Carrier → CmdType → Option (Cmd × Carrier)
  pub free_push : Carrier → Cmd → Option Carrier
  pub ready_push : Carrier → Cmd → Option Carrier
  pub ready_pop_back : Carrier → Option (Cmd × Carrier)

-- `free` are the ids of the free commands in any order, `ready` the queue, its oldest first.
pub record IsCmds (C : CmdOps) : Type 0 where
  pub free : C.Carrier → List ℕ
  pub ready : C.Carrier → List Cmd
  pub free_pop_lem :
      (c c' : C.Carrier) (t : CmdType) (x : Cmd)
      → C.free_pop c t ≡ some (x, c')
      → (x.type ≡ t)
        × (ready c' ≡ ready c)
        × ((a : ℕ) → count a (free c) ≡ count a (x.id ∷ free c'))
  pub free_push_lem :
      (c c' : C.Carrier) (x : Cmd)
      → C.free_push c x ≡ some c'
      → (ready c' ≡ ready c) × ((a : ℕ) → count a (free c') ≡ count a (x.id ∷ free c))
  pub ready_push_lem :
      (c c' : C.Carrier) (x : Cmd)
      → C.ready_push c x ≡ some c'
      → (ready c' ≡ ready c ++ x ∷ []) × (free c' ≡ free c)
  pub ready_pop_back_lem :
      (c c' : C.Carrier) (x : Cmd)
      → C.ready_pop_back c ≡ some (x, c')
      → (ready c ≡ x ∷ ready c') × (free c' ≡ free c)
  pub ready_pop_back_none : (c : C.Carrier) → C.ready_pop_back c ≡ none → ready c ≡ []
