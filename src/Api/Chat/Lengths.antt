-- ===== src/Api/Chat/Lengths.antt =====
-- How many messages the inbound pipeline lets through.
use intellisphere.Common.{ℕ, suc, ◌≡◌, refl, List, [], ◌∷◌, Result, ok, err, length, arith}
use intellisphere.Errors.{SphereError}
use intellisphere.Proto.{Message}
use intellisphere.Pipeline.Context.{PipelineContext}
use intellisphere.Pipeline.Chain.{PipelineChain, run_inbound}
use intellisphere.Api.Chat.{ChatMessage, Converted, push, plain, run_messages}

-- The messages of a conversation that ran through the inbound pipeline, if none was refused.
length-push :
    (m : Message) (n : ℕ) (c : Converted)
    → ((ms : List Message) → c.0 ≡ ok ms → length ms ≡ n)
    → (ms : List Message) → (push m c).0 ≡ ok ms
    → length ms ≡ suc n
unfolding push
length-push m n (ok ks, context) h ms e = ground (arith, h ks refl)
length-push m n (err f, context) h ms e = cc

length-first :
    (m : Message) (n : ℕ) (r : Result (Unit {0}) SphereError) (context : PipelineContext)
    (c : Converted)
    → ((ms : List Message) → c.0 ≡ ok ms → length ms ≡ n)
    → (ms : List Message)
    → (elim r as (λ x. Converted) [ ok u ↦ push m c | err e ↦ (err e, context) ]).0 ≡ ok ms
    → length ms ≡ suc n
length-first m n (ok u) context c h ms e = length-push m n c h ms e
length-first m n (err f) context c h ms e = cc

pub length-run_messages :
    (chain : PipelineChain) (msgs : List ChatMessage) (context : PipelineContext)
    (ms : List Message)
    → (run_messages chain msgs context).0 ≡ ok ms
    → length ms ≡ length msgs
unfolding run_messages
length-run_messages chain [] context ms e = ground arith
length-run_messages chain (msg ∷ msgs) context ms e =
    length-first _ (length msgs) (run_inbound chain (plain msg.role msg.content) context).0 _ _
      (length-run_messages chain msgs _) ms e
