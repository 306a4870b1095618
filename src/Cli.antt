-- ===== src/Cli.antt =====
-- The commands of the command line (courier/cli.py) by their exit codes; what they print is left out,
-- and argparse hands over the arguments. Python's `int` on a text is a parameter, `none` its ValueError.
pub mod ExitCodes
use cs60_final_project.Common.{
  ℕ, Bool, true, false, ◌⊎◌, inl, inr, ◌==◌, Option, none, some, ◌>>=◌, List, [], ◌∷◌, Text,
  is_some, if◌then◌else◌,
}
use cs60_final_project.Protocol.{Address}
use cs60_final_project.Sender.State.{Floats, SendEnv}
use cs60_final_project.Sender.Files.{FileEnv, SendError, exists}
use cs60_final_project.Node.State.{Node, start}
use cs60_final_project.Node.Dispatch.{node_send_file}
use cs60_final_project.Node.Status.{node_send_status}
use cs60_final_project.Node.Waiting.{WaitRound, wait_for_completion}

-- The arguments of the command `send`.
pub record SendArgs (F : Type 0) : Type 0 where
  pub file : Text
  pub to : Text
  pub dst_port : ℕ
  pub fec : Bool
  pub wait : Bool
  pub timeout : F

-- A character in front of the first part.
abbrev pub onto_first : ℕ → List Text → List Text
onto_first c [] = (c ∷ []) ∷ []
onto_first c (part ∷ parts) = (c ∷ part) ∷ parts

-- text.split(":")
unfoldable pub split_colon : Text → List Text
split_colon [] = [] ∷ []
split_colon (c ∷ text) =
    let parts = split_colon text in if c == b':' then [] ∷ parts else onto_first c parts

-- By the parts of the destination: the node id is also the host.
abbrev pub address_of : (Text → Option ℕ) → ℕ → List Text → Option Address
address_of to_int dst_port (host ∷ []) = some (host, dst_port)
address_of to_int dst_port (host ∷ port ∷ []) = to_int port >>= λ n. some (host, n)
address_of to_int dst_port _ = none

-- The destination of the command `send`; `none` for an invalid one.
unfoldable pub destination : (Text → Option ℕ) → Text → ℕ → Option Address
unfolding split_colon
destination to_int to dst_port = address_of to_int dst_port (split_colon to)

abbrev pub code_of_wait : Option Bool → Option ℕ
code_of_wait none = none
code_of_wait (some true) = some 0
code_of_wait (some false) = some 1

module _ {F : Type 0} (fl : Floats F) where
  -- The wait for the bundle, which the command makes with and without --wait.
  abbrev pub code_of_send : F → F → List (WaitRound F) → SendError ⊎ (Text × Node F) → Option ℕ
  code_of_send timeout start_time rounds (inl error) = some 1
  code_of_send timeout start_time rounds (inr (b, n)) =
      code_of_wait (wait_for_completion fl b (some timeout) start_time rounds)

  -- The part of cmd_send after node.start(), and the destination's node id is its host.
  unfoldable pub send_from :
      (Text → Option ℕ)
      → SendEnv F
      → FileEnv
      → F
      → List (WaitRound F)
      → SendArgs F
      → Node F
      → Option ℕ
  send_from to_int env files start_time rounds args n =
      let code : Option ℕ = elim (destination to_int args.to args.dst_port) [
        | none ↦ some 1
        | some addr ↦
            code_of_send args.timeout start_time rounds
              (node_send_file fl env files args.file addr.0 addr args.fec n)
      ] in
      if exists files.file then code else some 1

  -- cmd_send(args) on the node that create_node made: its exit code, `none` while it waits. `bound`
  -- tells whether the socket could be opened, and `signalled` whether SIGINT or SIGTERM comes
  -- before the command is done: Node._signal_handler, which is there as soon as the node is made,
  -- then ends it with sys.exit(0), which `except Exception` does not catch.
  unfoldable pub cmd_send :
      (Text → Option ℕ)
      → Bool
      → Bool
      → SendEnv F
      → FileEnv
      → F
      → List (WaitRound F)
      → SendArgs F
      → Node F
      → Option ℕ
  unfolding send_from
  cmd_send to_int bound signalled env files start_time rounds args n =
      let code : Option ℕ = elim (start fl bound n) [
        | none ↦ some 1
        | some started ↦ send_from to_int env files start_time rounds args started
      ] in
      if signalled then some 0 else code

  -- cmd_status(args), on the node that create_node made
  unfoldable pub cmd_status : Option Text → Node F → ℕ
  cmd_status none n = 0
  cmd_status (some b) n = if is_some (node_send_status fl b n) then 0 else 1
