-- ===== src/Provider.antt =====
-- internal/provider/client.go: the loop of attempts of a request, the cost of a reply, and the reading
-- of a stream. What a server answers, JSON decoding and the handler of the chunks are parameters.
pub mod Post
pub mod Stream
pub mod Chunks
use llmsentinel_router.Prelude.Int.{ℤ, pos}
use llmsentinel_router.Prelude.{String, Option}
use llmsentinel_router.Prelude.Float.{Float64}

pub record Usage : Type 0 where
  pub prompt_tokens : ℤ
  pub completion_tokens : ℤ
  pub total_tokens : ℤ

pub record Response (F : Type 0) : Type 0 where
  pub content : String
  pub model : String
  pub usage : Usage
  pub cost : F

-- What the modelled methods read of an HTTPClient.
pub record HttpClient (F : Type 0) : Type 0 where
  pub provider : String
  pub model_id : String
  pub price_in_per_m : F
  pub price_out_per_m : F

-- cost
unfoldable pub cost : {F : Type 0} ⦃fl : Float64 F⦄ → HttpClient F → ℤ → ℤ → F
cost ⦃fl⦄ c input_tokens output_tokens =
    fl.div
      (fl.add (fl.mul (fl.of_int input_tokens) c.price_in_per_m)
        (fl.mul (fl.of_int output_tokens) c.price_out_per_m))
      (fl.of_int (pos 1_000_000))
