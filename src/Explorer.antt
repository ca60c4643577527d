-- ===== src/Explorer.antt =====
-- Cost Explorer as the service sees it: the requests and responses that
-- apps/costwatch/backend/internal/costs hands to the AWS client and reads back, a field for each
-- that the code uses. A pointer field is an `Option`, a nil pointer `none`.
use eksp.Base.{Str, codes, List, Option}

pub record DateInterval : Type 0 where
  pub start : Option Str
  pub end : Option Str

pub record MetricValue : Type 0 where
  pub amount : Option Str
  pub unit : Option Str

pub record Group : Type 0 where
  pub keys : List Str
  pub metrics : List (Str × MetricValue)

pub record ResultByTime : Type 0 where
  pub time_period : Option DateInterval
  pub groups : List Group

abbrev pub unblended_cost : Str
unblended_cost = codes "UnblendedCost"
