-- ===== src/Api.antt =====
-- services/api, redux/features and components/home/assets.tsx: which request each function sends;
-- the answers are left to the pages. Served says which of them the server has a handler for.
pub mod Served
use mpc_main.Prelude.{
  ℕ, zero, suc, ◌+◌, ◌-◌, ◌*◌, ◌/◌, ◌%◌, ◌^◌, ◌≤◌, ◌<◌, String, ◌≡◌, refl, sym, ap, ◌∙◌, ◌≢◌, ◌↔◌,
  ◌⊎◌, inl, inr, Bool, true, false, not, ◌&&◌, ◌||◌, Option, none, some, List, [], ◌∷◌, ◌++◌, map,
  arith, str_eq, eq_iff, eq_refl, ltb, leb, ◌==◌, if◌then◌else◌, Bool-cases, Option-cases,
  and-eq-true, truthy, or_text, length, take, drop, keep, find, any, all, length-take, length-drop,
  length-snoc, take-add, take_all, flat, flat-snoc, keep-append, keep_of_all, all-keep, all-take,
  all-drop, keep-keep, All, All-append, All-keep, Text, units, text_eq, text_eq_sound, text_eq_refl,
  is_empty, append_injective, String-cases,
}
use Prim.Native.String

-- `createAxios()` or the base query, which add the token, or axios itself.
pub data Client : Type 0 where
  session plain : Client

pub data Method : Type 0 where
  get post put patch delete : Method

-- The server of a request: http://localhost:5001, which is written out, VITE_API_URL or
-- VITE_API_PAYMENT.
pub data Base : Type 0 where
  local_server configured payment_server : Base

pub record Http : Type 0 where
  pub client : Client
  pub method : Method
  pub base : Base
  pub path : String

-- The functions of each file, with the arguments that are part of the address as it prints them:
-- auth.api.ts
pub data AuthCall : Type 0 where
  login_api verify_login_api verify_register_api register_api : AuthCall
  security_code resend_otp get_profile_api logout forgot_password reset_password : AuthCall

-- transfer.api.ts
pub data MoneyCall : Type 0 where
  get_user_by_email : String → MoneyCall
  send_money_api : MoneyCall
  get_transaction_api : String → MoneyCall
  deposit_money withdraw_money : MoneyCall

-- payment.api.ts
pub data PaymentCall : Type 0 where
  payment_api : String → PaymentCall
  confirm_payment_api : PaymentCall
  get_vouchers_partner : String → PaymentCall
  apply_voucher : PaymentCall

-- credit-card.api.ts
pub data CardCall : Type 0 where
  add_card get_cards : CardCall
  delete_card : String → CardCall

-- redux/features/credit-card/creditCardApi.ts
pub data CachedCardCall : Type 0 where
  get_credit_cards add_credit_card : CachedCardCall
  delete_credit_card detail_credit_card : String → CachedCardCall

-- setting.api.ts
pub data SettingCall : Type 0 where
  edit_profile change_password change_security_code : SettingCall

-- connect-app.api.ts
pub data AppCall : Type 0 where
  get_partner_wallet : String → AppCall
  connect_wallet get_connected_app_wallet : AppCall
  disconnect_wallet : String → AppCall

-- transaction.api.ts
pub data TransactionCall : Type 0 where
  get_transaction_paginate : String → String → String → TransactionCall
  get_transaction_details : String → TransactionCall

-- organization.api.ts
pub data OrganizationCall : Type 0 where
  get_organizations : String → String → OrganizationCall
  create_organization : OrganizationCall
  get_organization get_api_keys create_api_key : String → OrganizationCall
  delete_api_key : String → String → OrganizationCall
  get_usage_stats : String → OrganizationCall

pub data Call : Type 0 where
  auth : AuthCall → Call
  money : MoneyCall → Call
  payment : PaymentCall → Call
  card : CardCall → Call
  cached_card : CachedCardCall → Call
  setting : SettingCall → Call
  app : AppCall → Call
  transaction : TransactionCall → Call
  organization : OrganizationCall → Call
  -- The requests of config/axios.config.ts, profileApi.ts and assets.tsx.
  refresh_token get_profile get_balance : Call

-- `a + b` on texts, which computes along `a`.
infixr 60 ◌+++◌
unfoldable pub ◌+++◌ : String → String → String
String.[] +++ t = t
String.◌∷◌ c s +++ t = String.◌∷◌ c (s +++ t)

abbrev with_token : Method → String → Http
with_token method path = record {
  client = session;
  method = method;
  base = local_server;
  path = path;
}

abbrev without : Method → Base → String → Http
without method base path = record { client = plain; method = method; base = base; path = path }

unfoldable pub auth_http : AuthCall → Http
auth_http login_api = without post local_server "/api/v1/auth/login"
auth_http verify_login_api = without post configured "/api/v1/user/signin/verify"
auth_http verify_register_api = without post configured "/api/v1/user/signup/verify"
auth_http register_api = without post local_server "/api/v1/auth/signup"
auth_http security_code = with_token put "/api/v1/user/update-security-code"
auth_http resend_otp = without post configured "/api/v1/user/resend-email"
auth_http get_profile_api = with_token get "/api/v1/user/profile"
auth_http logout = with_token post "/api/v1/user/log-out"
auth_http forgot_password = without post configured "/api/v1/user/forgot-password"
auth_http reset_password = without post configured "/api/v1/user/reset-password"

unfoldable pub money_http : MoneyCall → Http
unfolding ◌+++◌
money_http (get_user_by_email email) =
    without get configured ("/api/v1/user/get-user?email=" +++ email)
money_http send_money_api = with_token post "/api/v1/transactions/"
money_http (get_transaction_api id) =
    with_token get ("/api/v1/transaction/get/transaction/details/" +++ id)
money_http deposit_money = with_token post "/api/v1/wallet/deposit-money"
money_http withdraw_money = with_token post "/api/v1/wallet/withdraw-money"

unfoldable pub payment_http : PaymentCall → Http
unfolding ◌+++◌
payment_http (payment_api token) = without get payment_server ("/api/payment/get-order/" +++ token)
payment_http confirm_payment_api = with_token post "/api/v1/confirm-payment"
payment_http (get_vouchers_partner id) =
    without get configured ("/api/v1/voucher/get-vouchers-partner?partnerID=" +++ id)
payment_http apply_voucher = with_token post "/api/v1/apply-voucher"

unfoldable pub card_http : CardCall → Http
unfolding ◌+++◌
card_http add_card = with_token post "/api/v1/card/add-card"
card_http get_cards = with_token get "/api/v1/card/get-cards\n"
card_http (delete_card id) = with_token delete ("/api/v1/card/delete-card/" +++ id +++ "\n  \n")

-- Requests of the base query, which adds the token.
unfoldable pub cached_card_http : CachedCardCall → Http
unfolding ◌+++◌
cached_card_http get_credit_cards = with_token get "/api/v1/card/get-cards"
cached_card_http add_credit_card = with_token post "/api/v1/card/add-card"
cached_card_http (delete_credit_card id) = with_token delete ("/api/v1/card/delete-card/" +++ id)
cached_card_http (detail_credit_card id) = with_token get ("/api/v1/card/details/" +++ id)

unfoldable pub setting_http : SettingCall → Http
setting_http edit_profile = with_token put "/api/v1/user/edit-profile"
setting_http change_password = with_token patch "/api/v1/user/change-password"
setting_http change_security_code = with_token patch "/api/v1/user/change-security-code"

unfoldable pub app_http : AppCall → Http
unfolding ◌+++◌
app_http (get_partner_wallet id) = with_token get ("/api/v1/partner/" +++ id)
app_http connect_wallet = with_token post "/api/v1/connect-wallet"
app_http get_connected_app_wallet = with_token get "/api/v1/connected-app"
app_http (disconnect_wallet id) = with_token delete ("/api/v1/disconnect-wallet/" +++ id)

unfoldable pub transaction_http : TransactionCall → Http
unfolding ◌+++◌
transaction_http (get_transaction_paginate wallet_address page limit) = with_token get (
    "/api/v1/transactions?wallet_address=" +++ wallet_address +++ "&page=" +++ page
    +++ "&page_size=" +++ limit)
transaction_http (get_transaction_details id) =
    with_token get ("/api/v1/transaction/get/transaction/details/" +++ id)

-- The address is VITE_API_URL, or that of the local server where that is not set.
unfoldable pub organization_http : OrganizationCall → Http
unfolding ◌+++◌
organization_http (get_organizations page limit) =
    without get configured ("/organizations?page=" +++ page +++ "&limit=" +++ limit)
organization_http create_organization = without post configured "/organizations"
organization_http (get_organization id) = without get configured ("/organizations/" +++ id)
organization_http (get_api_keys id) =
    without get configured ("/organizations/" +++ id +++ "/api-keys")
organization_http (create_api_key id) =
    without post configured ("/organizations/" +++ id +++ "/api-keys")
organization_http (delete_api_key id key) =
    without delete configured ("/organizations/" +++ id +++ "/api-keys/" +++ key)
organization_http (get_usage_stats id) =
    without get configured ("/organizations/" +++ id +++ "/usage")

abbrev pub http_of : Call → Http
unfolding auth_http money_http payment_http card_http cached_card_http setting_http app_http
    transaction_http organization_http
http_of (auth c) = auth_http c
http_of (money c) = money_http c
http_of (payment c) = payment_http c
http_of (card c) = card_http c
http_of (cached_card c) = cached_card_http c
http_of (setting c) = setting_http c
http_of (app c) = app_http c
http_of (transaction c) = transaction_http c
http_of (organization c) = organization_http c
http_of refresh_token = with_token post "/api/v1/auth/refresh"
http_of get_profile = with_token get "/api/v1/users/me"
http_of get_balance = with_token get "/api/v1/wallets/balance"
