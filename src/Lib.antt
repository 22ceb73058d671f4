-- ===== src/Lib.antt =====
-- Verification library of the YouTube trending pipeline.
--
-- The program collects the trending videos of YouTube. A job asks for a region, a category and a
-- number of results; the backend (backend/, in Go) queues it, fetches the videos, stores them and
-- answers queries; the frontend (frontend/, in TypeScript) submits jobs, follows them and shows
-- what was stored. Frontend and backend meet at the HTTP gateway alone: calls of
-- frontend/lib/api.ts with JSON answers, and one stream of events per job page.
--
-- Which file models what:
--   Types           frontend/types/jobs.ts, frontend/types/videos.ts: the interfaces of requests
--                   and answers, as records and data types.
--   Jobs            frontend/lib/jobs.ts, frontend/components/job-status-badge.tsx: the tables of
--                   states. Jobs.Time has the timestamps, Jobs.Key generateIdempotencyKey,
--                   Jobs.Catalog the categories and regions.
--   Api             frontend/lib/api.ts: the request of each call and how its answer settles.
--   Storage         frontend/components/jobs-list.tsx: the two keys of localStorage, with
--                   storeJobId, getStoredJobIds, storeJobMeta and getJobMaxResults.
--   JobsList        frontend/components/jobs-list.tsx: fetchJobs, as the steps before and after
--                   its answers.
--   JobForm         frontend/components/job-form.tsx: the fields and handleSubmit.
--   JobDetail       frontend/components/job-detail.tsx: the state of the page, its events as a
--                   step function, the effect of the live connection (watch, clean_up), and in
--                   JobDetail.Progress and JobDetail.View the bars and what is shown.
--   Format          formatCount of frontend/components/videos-table.tsx, analytics-dashboard.tsx
--                   and video-trend-chart.tsx.
--   VideosTable     frontend/components/videos-table.tsx: search, sort, pages and requests, as a
--                   step function of the events of the page.
--   TrendChart      frontend/components/video-trend-chart.tsx: the load; TrendChart.Lines has the
--                   three line charts, TrendChart.View what the page shows.
--   SummaryCard     frontend/components/videos-summary-card.tsx.
--   Dashboard       frontend/components/analytics-dashboard.tsx: the requests and the region;
--                   Dashboard.Charts has the most viewed video and the entries of the charts.
--   App             frontend/app: the layout, the pages and their addresses.
--   Backend         the shapes of backend/proto/etl.proto, backend/db/migrations and
--                   backend/youtube/client.go, and the state that the parts share.
--   Backend.Database  backend/db/db.go: the statements on jobs and videos, with the keys of the
--                   tables; Backend.Database.Query has the texts of GetVideos and GetTopChannels,
--                   Backend.Database.Select the rows that GetVideos selects,
--                   Backend.Database.Channels those of GetTopChannels, and
--                   Backend.Database.Totals the counts, the regions and the trend of a video.
--   Backend.Worker  backend/worker/worker.go: processJob.
--   Backend.Etl     backend/etl/server.go: SubmitJob, SubmitBatch and WatchJob on streams without
--                   errors; Backend.Etl.BatchStream and Backend.Etl.Stream have the streams whose
--                   calls may fail, Backend.Etl.Status GetJobStatus. Backend.Etl.Followed has what
--                   the page of a job makes of the stream.
--   Backend.Analytics  backend/analytics/server.go: the five calls, the keys and the cache.
--   Backend.System  the service and the workers around one database and one channel.
--   Backend.Youtube backend/youtube/client.go: FetchTrending.
--   Backend.Gateway backend/api/server.go: what handleGetVideos and handleGetTopChannels ask for;
--                   Backend.Gateway.Routes has RegisterRoutes, Backend.Gateway.Handlers the
--                   handlers, Backend.Gateway.Atoi strconv.Atoi and the conversion to int32.
--                   Backend.Gateway.Settled, Submitted, Batched, Counted and Rendered follow
--                   calls of the dashboard through the gateway to the services.
--   Prelude         shared names, Boolean tests, lists, texts, numbers, paths and sorts.
--   Examples        tests and concrete runs.
--
-- How state corresponds. The useState cells of a component are the fields of one record, an event
-- handler or the settlement of a promise is a function on that record, and a component's life is a
-- list of events. An async function is split at each await, so that answers can come in any order
-- between other events. An effect runs after the commit that changes its dependencies (commit of
-- JobDetail, the choose functions of VideosTable).
--
-- A key of the cache and a statement of the database are read at the time of the call, and a call
-- that misses the cache is two steps, so that other calls come between.
--
-- In the backend the tables, the channel and the calls of the database made so far are one record,
-- passed from call to call. A call that changes a table is confirmed, or carried out with the
-- confirmation lost, or refused, as a parameter says for each call. Backend.System interleaves the
-- two halves of a submit and the runs of jobs; a run is one step.
--
-- Numbers. Counts and times are natural numbers. A number of an answer is a JsNum, an Option of a
-- natural number: the gateway encodes with omitempty, so a zero is left out and read as undefined,
-- and a comparison with undefined is false, as with NaN. An age that would be negative is an
-- integer (ℤ).
--
-- Bounds and fuel. The text of n is written with suc n as fuel, which is more than its digits; the
-- attempts of a job are counted down from the three of the source, and every other function is
-- structural: a loop over a stream goes over the list of what its calls return. The log of a job
-- page, the stored ids, a page of the table and a name on an axis have the bounds of the source
-- (50, 20, 25, 18).
--
-- Parameters stand for code outside the repository: the serialiser of URLSearchParams, the digest
-- SHA-256, toLocaleString, toLowerCase, toFixed and Math.round on a quotient, the floating-point
-- product with 0.95, and the lowest value that recharts passes to an axis; in the backend what the
-- database answers, what http.Get and the JSON decoder return, time.Parse, the clock, uuid.New,
-- Redis with the JSON encoder, the text of a time in a key, what gin binds of a body, and the
-- client's side of a stream of gRPC. The statements of the database on jobs and videos are
-- functions on its tables; the order of rows that a statement leaves open is that of the table.
--
-- Not modelled: the components of frontend/components/ui, which are copies of shadcn/ui; what a
-- browser makes of an address whose path has escapes or dot segments, so that ids are of letters,
-- digits, dashes and underscores wherever they are part of one; the panic of FetchTrending for a
-- negative max_results (backend/youtube/client.go), which ends the process, so that a fetch
-- returns videos or an error; the bound of the channel, where a send waits for room; New of
-- backend/db/db.go and backend/cmd/server, which start the parts; CSS classes, fonts and the
-- settings of charts, which decide nothing but looks; React itself, apart from the order of
-- renders and effects that the steps use.
pub mod Backend
pub mod Prelude
pub mod Types
pub mod Jobs
pub mod Api
pub mod App
pub mod Storage
pub mod JobForm
pub mod JobsList
pub mod JobDetail
pub mod Format
pub mod VideosTable
pub mod TrendChart
pub mod SummaryCard
pub mod Dashboard
mod Examples
