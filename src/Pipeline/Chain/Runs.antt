-- ===== src/Pipeline/Chain/Runs.antt =====
-- How a chain runs its filters.
use intellisphere.Common.{◌≡◌, refl, ap, sym, ◌∙◌, List, [], ◌∷◌, ◌++◌, ok, err, All}
use intellisphere.Proto.{Message}
use intellisphere.Pipeline.Context.{PipelineContext, Filtered, Filter}
use intellisphere.Pipeline.Chain.{run_filters}

abbrev pub then_run : Filtered → List Filter → Filtered
then_run (ok u, m, ctx) fs = run_filters fs m ctx
then_run (err e, m, ctx) fs = (err e, m, ctx)

abbrev pub after : Filtered → (Message → PipelineContext → Filtered) → Filtered
after r k = elim r.0 [ ok u ↦ k r.1 r.2 | err e ↦ (err e, r.1, r.2) ]

after-then_run :
    (r : Filtered) (k l : Message → PipelineContext → Filtered) (gs : List Filter)
    → ((m : Message) (ctx : PipelineContext) → k m ctx ≡ then_run (l m ctx) gs)
    → after r k ≡ then_run (after r l) gs
after-then_run (ok u, m, ctx) k l gs h = h m ctx
after-then_run (err e, m, ctx) k l gs h = refl

after_inv {κ} :
    (P : PipelineContext → Type κ) (k : Message → PipelineContext → Filtered)
    → ((m : Message) (ctx : PipelineContext) → P ctx → P (k m ctx).2)
    → (r : Filtered) → P r.2
    → P (after r k).2
after_inv P k h (ok u, m, ctx) p = h m ctx p
after_inv P k h (err e, m, ctx) p = p

-- Filters run in order and the first error is final: running two lists one after the other is
-- running the second on what the first leaves, unless the first ended in an error.
pub run_filters-append :
    (fs gs : List Filter) (m : Message) (ctx : PipelineContext)
    → run_filters (fs ++ gs) m ctx ≡ then_run (run_filters fs m ctx) gs
unfolding run_filters
run_filters-append [] gs m ctx = refl
run_filters-append (f ∷ fs) gs m ctx =
    after-then_run (f.apply m ctx) (run_filters (fs ++ gs)) (run_filters fs) gs
      (run_filters-append fs gs)

-- A filter that passes everything unchanged in a context can be left out there.
pub run_filters-skip :
    (f : Filter) (fs : List Filter) (m : Message) (ctx : PipelineContext)
    → f.apply m ctx ≡ (ok tt, m, ctx)
    → run_filters (f ∷ fs) m ctx ≡ run_filters fs m ctx
unfolding run_filters
run_filters-skip f fs m ctx h = ap (λ r. after r (run_filters fs)) h

-- What every filter keeps of the context, the chain keeps, whether it ends in an error or not.
pub run_filters_inv {κ} :
    (P : PipelineContext → Type κ) (fs : List Filter)
    → All (λ f. (m : Message) (ctx : PipelineContext) → P ctx → P (f.apply m ctx).2) fs
    → (m : Message) (ctx : PipelineContext) → P ctx
    → P (run_filters fs m ctx).2
unfolding run_filters
run_filters_inv P [] keep m ctx h = h
run_filters_inv P (f ∷ fs) keep m ctx h =
    after_inv P (run_filters fs) (run_filters_inv P fs keep.1) (f.apply m ctx) (keep.0 m ctx h)

then_run_congr {κ} :
    (P : PipelineContext → Type κ) (gs hs : List Filter)
    → ((m : Message) (ctx : PipelineContext) → P ctx → run_filters gs m ctx ≡ run_filters hs m ctx)
    → (r : Filtered) → P r.2
    → then_run r gs ≡ then_run r hs
then_run_congr P gs hs same (ok u, m, ctx) p = same m ctx p
then_run_congr P gs hs same (err e, m, ctx) p = refl

-- Behind filters that keep `P`, two chains that agree where `P` holds can stand for one another.
pub run_filters-congr {κ} :
    (P : PipelineContext → Type κ) (fs gs hs : List Filter)
    → All (λ f. (m : Message) (ctx : PipelineContext) → P ctx → P (f.apply m ctx).2) fs
    → ((m : Message) (ctx : PipelineContext) → P ctx → run_filters gs m ctx ≡ run_filters hs m ctx)
    → (m : Message) (ctx : PipelineContext) → P ctx
    → run_filters (fs ++ gs) m ctx ≡ run_filters (fs ++ hs) m ctx
run_filters-congr P fs gs hs keep same m ctx h =
    run_filters-append fs gs m ctx
    ∙ (then_run_congr P gs hs same (run_filters fs m ctx) (run_filters_inv P fs keep m ctx h)
        ∙ sym (run_filters-append fs hs m ctx))
