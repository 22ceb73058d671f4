-- ===== src/TrendChart/Lines.antt =====
-- frontend/components/video-trend-chart.tsx: the three line charts, as they are passed to recharts.
-- The date format, `toFixed` on a quotient and the floating-point product of a count and 0.95 are
-- parameters. The product is counted in units of 2^-53, of which a double from 1/2 on is a multiple.
use yt_trending_pipeline.Prelude.{
  ℕ, ◌/◌, Option, none, some, List, [], ◌++◌, map, Str, text, length, same, JsNum, or_else, decimal,
  ◌==◌, if◌then◌else◌,
}
use yt_trending_pipeline.Types.{TrendPoint}
use yt_trending_pipeline.Format.{format_count}

pub record ChartDataPoint : Type 0 where
  pub time : Str
  pub views : JsNum
  pub likes : JsNum
  pub comments : ℕ

-- what a point has under a name: a label, a number, or nothing
pub data Field : Type 0 where
  label : Str → Field
  number : JsNum → Field
  missing : Field

unfoldable pub field : Str → ChartDataPoint → Field
field key p =
    if same key (text "time")
    then label p.time
    else if same key (text "Views")
    then number p.views
    else if same key (text "Likes")
    then number p.likes
    else if same key (text "Comments")
    then number (some p.comments)
    else missing

-- `Math.floor` of a number of units of 2^-53
abbrev pub floor : ℕ → ℕ
floor units = units / 9007199254740992

pub record LineChart : Type 0 where
  pub title : Str
  pub description : Option Str
  pub points : List ChartDataPoint
  pub x_key : Str
  pub tick_formatter : JsNum → Str
  pub domain_start : ℕ → ℕ
  pub formatter : Field → Field
  pub line_key : Str
  pub stroke : Str

module _ (format_date : Str → Str) (tenths : ℕ → ℕ → ℕ) (times_095 : ℕ → ℕ) where
  unfoldable pub chart_point : TrendPoint → ChartDataPoint
  chart_point p = record {
    time = format_date p.fetched_at;
    views = p.view_count;
    likes = p.like_count;
    comments = or_else p.comment_count 0;
  }

  unfoldable pub chart_data : List TrendPoint → List ChartDataPoint
  unfolding chart_point
  chart_data = map chart_point

  -- `typeof value === "number"`
  abbrev tooltip : Field → Field
  tooltip (number (some n)) = label (format_count tenths (some n))
  tooltip value = value

  abbrev line_chart : Str → Option Str → Str → Str → List ChartDataPoint → LineChart
  line_chart title description line_key stroke points = record {
    title = title;
    description = description;
    points = points;
    x_key = text "time";
    tick_formatter = format_count tenths;
    domain_start = λ data_min. floor (times_095 data_min);
    formatter = tooltip;
    line_key = line_key;
    stroke = stroke;
  }

  abbrev points_text : ℕ → Str
  points_text n = decimal n ++ (text " data point" ++ (if n == 1 then [] else text "s"))

  unfoldable pub views_chart : List TrendPoint → LineChart
  unfolding chart_data
  views_chart trend =
      line_chart (text "Views Over Time") (some (points_text (length trend))) (text "Views")
        (text "#3b82f6") (chart_data trend)

  unfoldable pub likes_chart : List TrendPoint → LineChart
  unfolding chart_data
  likes_chart trend =
      line_chart (text "Likes Over Time") none (text "Likes") (text "#10b981") (chart_data trend)

  unfoldable pub comments_chart : List TrendPoint → LineChart
  unfolding chart_data
  comments_chart trend =
      line_chart (text "Comments Over Time") none (text "Comments") (text "#f59e0b")
        (chart_data trend)
