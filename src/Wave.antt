-- ===== src/Wave.antt =====
-- The numbers of the demo client, apps/costwatch/backend/internal/costs/demo.go: its tables of base
-- costs and the wave that they are multiplied by, with what they use of Go's `math`, `hash/fnv` and
-- `time`. As with the other amounts, `float64` is any type with the operations.
use Prim.Native.Nat.{bit_xor}
use mathlib.Core.Logic.{ite}
use eksp.Base.{
  ℕ, suc, ◌*◌, ◌/◌, ◌%◌, ◌^◌, ◌-◌, Str, codes, Str-discrete, List, [], ◌∷◌, foldl, if◌then◌else◌, ℤ,
  pos, negsuc, ◌-ℤ◌, ◌*ℤ◌, leb_ℤ, decimal_ℤ, Float,
}
use eksp.Time.{Time, hour, day, day_number}

-- What the demo needs of Go's `math` and `strconv` besides `Float`.
pub record Math {ℓ} (F : Type ℓ) : Type ℓ where
  -- the number of a literal: `decimal n d` is n / 10 ^ d
  pub decimal : ℕ → ℕ → F
  -- `float64(n)`
  pub whole : ℤ → F
  -- `2*math.Pi`
  pub two_pi : F
  pub sin : F → F
  -- `strconv.FormatFloat(x, 'f', n, 64)`
  pub format_float : ℕ → F → Str

-- `fnv.New32a()`, `Write` and `Sum32`. The keys are ASCII, so that characters are bytes.
unfoldable pub fnv32a : Str → ℕ
fnv32a s = foldl (λ h c. bit_xor h c * 16777619 % 2 ^ 32) 2166136261 s

-- `time.Time{}`
unfoldable pub zero_time : Time
unfolding day_number
zero_time = day_number 1 1 1 * day

-- `t.Unix()`
unfoldable pub unix : Time → ℤ
unfolding day_number
unix t = pos t -ℤ pos (day_number 1970 1 1 * day)

abbrev pub max_duration : ℤ
max_duration = pos (2 ^ 63 - 1)

abbrev pub min_duration : ℤ
min_duration = negsuc (2 ^ 63 - 1)

-- `a.Sub(b)`, in nanoseconds; it stays within its bounds.
unfoldable pub sub_time : Time → Time → ℤ
sub_time a b =
    let d = (pos a -ℤ pos b) *ℤ pos 1000000000 in
    if leb_ℤ max_duration d then max_duration else if leb_ℤ d min_duration then min_duration else d

module _ {ℓ} {F : Type ℓ} ⦃fl : Float F⦄ ⦃m : Math F⦄ where
  open fl use {add, sub, mul, div, hundred}
  open m use {decimal, whole, two_pi, sin}

  -- `d.Hours()`, of the quotient and the remainder that Go's division gives, which truncates
  unfoldable pub hours : ℤ → F
  hours d =
      let nanos = hour * 1000000000 in
      let of_part = λ (n : ℕ) (signed : ℕ → ℤ).
        add (whole (signed (n / nanos))) (div (whole (signed (n % nanos))) (whole (pos nanos))) in
      elim d [ pos n ↦ of_part n pos | negsuc n ↦ of_part (suc n) (λ k. pos 0 -ℤ pos k) ]

  unfoldable pub demo_services : List (Str × F)
  demo_services =
      (codes "Amazon Elastic Compute Cloud - Compute", decimal 4180 2)
      ∷ (codes "Amazon Elastic Kubernetes Service", decimal 720 2)
      ∷ (codes "Amazon Relational Database Service", decimal 1750 2)
      ∷ (codes "EC2 - Other", decimal 940 2)
      ∷ (codes "Amazon Simple Storage Service", decimal 430 2)
      ∷ (codes "AmazonCloudWatch", decimal 310 2)
      ∷ (codes "Elastic Load Balancing", decimal 560 2)
      ∷ (codes "Amazon EC2 Container Registry (ECR)", decimal 120 2)
      ∷ (codes "Amazon Route 53", decimal 50 2)
      ∷ (codes "AWS Cost Explorer", decimal 30 2)
      ∷ (codes "Amazon Virtual Private Cloud", decimal 240 2)
      ∷ (codes "AWS Key Management Service", decimal 90 2)
      ∷ (codes "Amazon DynamoDB", decimal 70 2)
      ∷ (codes "AWS Lambda", decimal 40 2)
      ∷ []

  unfoldable pub demo_keys : Str → List (Str × F)
  unfolding demo_services
  demo_keys group_by =
      ite (Str-discrete group_by (codes "REGION"))
        ((codes "ap-south-1", decimal 780 1)
          ∷ (codes "us-east-1", decimal 120 1)
          ∷ (codes "eu-west-1", decimal 50 1)
          ∷ [])
        (ite (Str-discrete group_by (codes "LINKED_ACCOUNT"))
          ((codes "123456789012", decimal 950 1) ∷ [])
          (ite (Str-discrete group_by (codes "USAGE_TYPE"))
            ((codes "APS3-BoxUsage:m7g.large", decimal 220 1)
              ∷ (codes "APS3-SpotUsage:c7g.xlarge", decimal 140 1)
              ∷ (codes "APS3-NatGateway-Hours", decimal 32 1)
              ∷ (codes "APS3-DataTransfer-Out-Bytes", decimal 61 1)
              ∷ (codes "APS3-TimedStorage-ByteHrs", decimal 43 1)
              ∷ (codes "APS3-LoadBalancerUsage", decimal 56 1)
              ∷ [])
            (ite (Str-discrete group_by (codes "RESOURCE_ID"))
              ((codes "i-0f3a1c9d2e8b47a01", decimal 112 1)
                ∷ (codes "i-0b7e4d1a9c3f52e88", decimal 98 1)
                ∷ (codes "nat-0a1b2c3d4e5f60718", decimal 32 1)
                ∷ (codes "vol-0c9d8e7f6a5b41230", decimal 19 1)
                ∷ (
                  codes
                      "arn:aws:elasticloadbalancing:ap-south-1:123456789012:loadbalancer/app/eksp/50dc6c495c0c9188",
                  decimal 56 1,
                )
                ∷ (codes "i-0e2d3c4b5a6978f10", decimal 74 1)
                ∷ [])
              demo_services)))

  unfoldable pub wave : Str → Time → F
  unfolding fnv32a unix
  wave key t =
      let phase = div (whole (pos (fnv32a key % 628))) hundred in
      let days = div (whole (unix t)) (whole (pos day)) in
      let weekly = mul (decimal 15 2) (sin (add (div (mul two_pi days) (whole (pos 7))) phase)) in
      let daily =
        mul (decimal 5 2)
          (sin (add (div (mul two_pi (whole (pos (t % day / hour)))) (whole (pos 24))) phase)) in
      let trend = mul (decimal 3 3) (sub days (whole (pos 20600))) in
      add (add (add (whole (pos 1)) weekly) daily) trend

-- Whole amounts, and no wave, which the examples compute with.
instance abbrev pub whole_math : Math ℤ
whole_math = record {
  decimal = λ n d. pos n;
  whole = λ n. n;
  two_pi = pos 6;
  sin = λ a. pos 0;
  format_float = λ n a. decimal_ℤ a;
}
