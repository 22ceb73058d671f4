-- ===== src/JobForm.antt =====
-- frontend/components/job-form.tsx: the form that submits a job. `handleSubmit` awaits the answer,
-- so it is two steps: what is sent, and what is done with the answer. `crypto.subtle` is taken to
-- be there, as it is on the deployed origin and on localhost.
pub mod Submit
use yt_trending_pipeline.Prelude.{
  ℕ, Option, none, some, Bool, true, false, List, [], ◌∷◌, ◌++◌, map, Str, text, truthy, decimal,
  parse_int, if◌then◌else◌,
}
use yt_trending_pipeline.Types.{SubmitJobRequest, JobResponse}
use yt_trending_pipeline.Jobs.Catalog.{
  Category, Region, youtube_categories, regions, get_category_label,
}
use yt_trending_pipeline.Jobs.Key.{generate_idempotency_key}
use yt_trending_pipeline.Api.{Settled, fulfilled, rejected}
use yt_trending_pipeline.Storage.{Host, store_job_id, store_job_meta}

pub record Form : Type 0 where
  pub region : Str
  pub category_id : Str
  pub max_results : Str
  pub loading : Bool
  pub error : Option Str

unfoldable pub initial : Form
initial = record {
  region = text "US";
  category_id = text "28";
  max_results = text "50";
  loading = false;
  error = none;
}

-- `onValueChange={(v) => v && set(v)}`: `null` and the empty string change nothing
abbrev pub chosen : Option Str → Str → Str
chosen none old = old
chosen (some v) old = if truthy v then v else old

unfoldable pub choose_region : Option Str → Form → Form
choose_region v form = record form { region = chosen v form.region }

unfoldable pub choose_category : Option Str → Form → Form
choose_category v form = record form { category_id = chosen v form.category_id }

unfoldable pub type_max_results : Str → Form → Form
type_max_results v form = record form { max_results = v }

-- `setLoading(true); setError(null)`
unfoldable pub begin_submit : Form → Form
begin_submit form = record form { loading = true; error = none }

-- The argument of `submitJob`, from the form as it was when the handler was made.
module _ (sha256 : Str → List ℕ) where
  unfoldable pub submitted : ℕ → Form → SubmitJobRequest
  submitted now form = record {
    region = form.region;
    category_id = parse_int form.category_id;
    max_results = parse_int form.max_results;
    idempotency_key = generate_idempotency_key sha256 now form.region (parse_int form.category_id);
  }

-- The form, the browser's storage and the page to go to once the answer is there. `sent` is the
-- form at the submit.
pub record Submitted : Type 0 where
  pub form : Form
  pub host : Host
  pub route : Option Str

unfoldable pub end_submit : Form → Settled JobResponse → Form → Host → Submitted
end_submit sent (fulfilled res) form host = record {
  form = form;
  host = store_job_meta res.job_id (parse_int sent.max_results) (store_job_id res.job_id host);
  route = some (text "/jobs/" ++ res.job_id);
}
end_submit sent (rejected message) form host = record {
  form = record form { error = some message; loading = false };
  host = host;
  route = none;
}

pub record Choice : Type 0 where
  pub value : Str
  pub shown : Str

pub record FormView : Type 0 where
  pub region : Str
  pub region_choices : List Choice
  pub category : Str
  pub category_choices : List Choice
  pub max_results : Str
  pub error : Option Str
  pub submit_disabled : Bool
  pub submit_label : Str

abbrev pub region_choice : Region → Choice
region_choice r = record { value = r.code; shown = r.label ++ (text " (" ++ (r.code ++ text ")")) }

abbrev pub category_choice : Category → Choice
category_choice c = record { value = decimal c.id; shown = c.label }

-- `{error && …}`
abbrev pub shown_error : Option Str → Option Str
shown_error none = none
shown_error (some message) = if truthy message then some message else none

unfoldable pub job_form : Form → FormView
job_form form = record {
  region = form.region;
  region_choices = map region_choice regions;
  category = get_category_label (parse_int form.category_id);
  category_choices = map category_choice youtube_categories;
  max_results = form.max_results;
  error = shown_error form.error;
  submit_disabled = form.loading;
  submit_label = if form.loading then text "Submitting…" else text "Submit Job";
}
