-- ===== src/Cli/ExitCodes.antt =====
-- What the exit code of `send` says (courier/cli.py).
use cs60_final_project.Common.{
  ℕ, ◌≡◌, refl, Bool, true, false, ◌⊎◌, inl, inr, Option, none, some, List, Text, Bool-cases,
  Option-cases, arith,
}
use cs60_final_project.Protocol.{Address}
use cs60_final_project.Sender.State.{Floats, SendEnv}
use cs60_final_project.Sender.Files.{FileEnv, SendError, exists}
use cs60_final_project.Node.State.{Node, start}
use cs60_final_project.Node.Dispatch.{node_send_file}
use cs60_final_project.Node.Waiting.{WaitRound, wait_for_completion}
use cs60_final_project.Node.Answers.{AnyRound, IsDoneRound, wait_for_completion-true}
use cs60_final_project.Cli.{SendArgs, destination, code_of_wait, code_of_send, send_from, cmd_send}

module _ {F : Type 0} (fl : Floats F) where
  code_of_wait-zero : (o : Option Bool) → code_of_wait o ≡ some 0 → o ≡ some true
  code_of_wait-zero none h = absurd (cc)
  code_of_wait-zero (some true) h = refl
  code_of_wait-zero (some false) h = absurd (ground (arith, h))

  -- A bundle was sent and told to be done.
  abbrev pub IsSent : List (WaitRound F) → SendError ⊎ (Text × Node F) → Type 0
  IsSent rounds r =
      (b : Text) × (n : Node F) × (r ≡ inr (b, n)) × AnyRound fl (IsDoneRound fl b) rounds

  code_of_send-zero :
      (timeout start_time : F) (rounds : List (WaitRound F)) (r : SendError ⊎ (Text × Node F))
      → code_of_send fl timeout start_time rounds r ≡ some 0
      → IsSent rounds r
  code_of_send-zero timeout start_time rounds (inl error) h = absurd (ground (arith, h))
  code_of_send-zero timeout start_time rounds (inr (b, n)) h = (
    b,
    n,
    refl,
    wait_for_completion-true fl b (some timeout) start_time rounds
        (code_of_wait-zero (wait_for_completion fl b (some timeout) start_time rounds) h),
  )

  -- The command `send` exits with 0 only if a signal ended it, or the node could be started, the file
  -- was there, the destination was valid, `send_file` made a bundle of it, and the node told, while it
  -- was running, that this bundle is complete or delivered.
  pub cmd_send-zero :
      (to_int : Text → Option ℕ) (bound signalled : Bool) (env : SendEnv F) (files : FileEnv)
      (start_time : F) (rounds : List (WaitRound F)) (args : SendArgs F) (n : Node F)
      → cmd_send fl to_int bound signalled env files start_time rounds args n ≡ some 0
      → (signalled ≡ true)
        ⊎ ((started : Node F) × (addr : Address) × (start fl bound n ≡ some started)
            × (exists files.file ≡ true)
            × (destination to_int args.to args.dst_port ≡ some addr)
            × IsSent rounds (node_send_file fl env files args.file addr.0 addr args.fec started))
  unfolding cmd_send send_from
  cmd_send-zero to_int bound true env files start_time rounds args n h = inl refl
  cmd_send-zero to_int bound false env files start_time rounds args n h =
      elim (Option-cases (start fl bound n)) [
        | inl failed ↦ absurd (ground (arith, h, failed))
        | inr (started, ready) ↦ elim (Bool-cases (exists files.file)) [
          | inl there ↦ elim (Option-cases (destination to_int args.to args.dst_port)) [
            | inl invalid ↦ absurd (ground (arith, h, ready, there, invalid))
            | inr (addr, valid) ↦
                let code : code_of_send fl args.timeout start_time rounds
                      (node_send_file fl env files args.file addr.0 addr args.fec started)
                    ≡ some 0 =
                  ground (arith, h, ready, there, valid) in
                inr (
                  started,
                  addr,
                  ready,
                  there,
                  valid,
                  code_of_send-zero args.timeout start_time rounds
                      (node_send_file fl env files args.file addr.0 addr args.fec started) code,
                )
          ]
          | inr missing ↦ absurd (ground (arith, h, ready, missing))
        ]
      ]
