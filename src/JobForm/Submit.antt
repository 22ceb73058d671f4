-- ===== src/JobForm/Submit.antt =====
-- frontend/components/job-form.tsx: what a submit sends, and what its answer leaves.
use yt_trending_pipeline.Prelude.{
  ℕ, ◌/◌, ◌≡◌, refl, ◌∙◌, or_else, if◌then◌else◌, Option, none, some, Bool, false, true, List, [],
  ◌++◌, Str, text, decimal, decimal-truthy, parse_int, parse_int-decimal, ℤ, pos, truthy, same_refl,
}
use yt_trending_pipeline.Types.{JobResponse}
use yt_trending_pipeline.Jobs.Key.{generate_idempotency_key, key_input}
use yt_trending_pipeline.Api.{fulfilled, rejected}
use yt_trending_pipeline.Storage.{
  Storage, Host, browser, store_job_meta, store_job_id, remember, get_stored_job_ids,
  get_job_max_results,
}
use yt_trending_pipeline.Storage.Recent.{max_results_of-put}
use yt_trending_pipeline.JobForm.{
  Submitted, Form, choose_category, begin_submit, submitted, end_submit, job_form,
}

-- Choosing the category `n` and submitting sends the number `n`, whatever the form held before;
-- the region and the other settings are not touched.
submitted-choose_category :
    (sha256 : Str → List ℕ) (now n : ℕ) (form : Form)
    → let chosen = choose_category (some (decimal n)) form in
      ((submitted sha256 now chosen).category_id ≡ some (pos n))
      × ((submitted sha256 now chosen).region ≡ form.region)
      × ((submitted sha256 now chosen).max_results ≡ parse_int form.max_results)
unfolding submitted choose_category
submitted-choose_category sha256 now n form =
    (rw (decimal-truthy n) (parse_int-decimal n), refl, refl)

-- Two submits of one region and category in the same hour carry the same key, whatever the number
-- of results that they ask for.
submitted_same_key :
    (sha256 : Str → List ℕ) (now later : ℕ) (form changed : Form)
    → form.region ≡ changed.region
    → parse_int form.category_id ≡ parse_int changed.category_id
    → now / 3600000 ≡ later / 3600000
    → (submitted sha256 now form).idempotency_key ≡ (submitted sha256 later changed).idempotency_key
unfolding submitted generate_idempotency_key key_input
submitted_same_key sha256 now later form changed region category hour = rw (region, category, hour)

-- what is left after the answer `res`, with the storage that the browser had
abbrev pub IsStored : Form → Form → JobResponse → Storage → Submitted → Type 0
IsStored sent form res s after =
    (get_stored_job_ids after.host ≡ remember res.job_id (get_stored_job_ids (browser s)))
    × (get_job_max_results res.job_id after.host ≡ parse_int sent.max_results)
    × (after.route ≡ some (text "/jobs/" ++ res.job_id))
    × (after.form ≡ form)

-- what is left after an error
abbrev pub IsUnchanged : Form → Str → Host → Submitted → Type 0
IsUnchanged form message host after =
    (after.host ≡ host)
    × (after.route ≡ none)
    × ((job_form after.form).error ≡ some message)
    × ((job_form after.form).submit_disabled ≡ false)
    × (after.form ≡ record form { error = some message; loading = false })

if_true : {b : Bool} {x : Option ℤ} (y : Option ℤ) → b ≡ true → (if b then x else y) ≡ x
if_true y e = rw e

pub end_submit-fulfilled :
    (sent form : Form) (res : JobResponse) (s : Storage)
    → IsStored sent form res s (end_submit sent (fulfilled res) form (browser s))
unfolding end_submit store_job_meta store_job_id get_stored_job_ids get_job_max_results
end_submit-fulfilled sent form res s = (
  refl,
  max_results_of-put res.job_id res.job_id (parse_int sent.max_results) (or_else s.job_meta [])
      ∙ if_true _ (same_refl res.job_id),
  refl,
  refl,
)

end_submit-rejected :
    (sent form : Form) (message : Str) (host : Host)
    → truthy message ≡ true
    → IsUnchanged form message host (end_submit sent (rejected message) (begin_submit form) host)
unfolding end_submit begin_submit job_form
end_submit-rejected sent form message host h = (refl, refl, rw h, refl, refl)

-- After an accepted submit the job heads the stored ids, its number of results is stored, and the
-- page of the job is next; the form stays as it is, so it stays disabled. After a submit that
-- failed with a message that is not empty, nothing is stored, there is no page to go to, the
-- message is shown and the form can be submitted again with the settings that it had.
pub end_submit_lem :
    (sent form : Form) (res : JobResponse) (message : Str) (s : Storage)
    → truthy message ≡ true
    → IsStored sent
        (begin_submit form)
        res
        s
        (end_submit sent (fulfilled res) (begin_submit form) (browser s))
      × IsUnchanged form message
          (browser s)
          (end_submit sent (rejected message) (begin_submit form) (browser s))
end_submit_lem sent form res message s h = (
  end_submit-fulfilled sent (begin_submit form) res s,
  end_submit-rejected sent form message (browser s) h,
)
