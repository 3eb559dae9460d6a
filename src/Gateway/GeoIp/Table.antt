-- ===== src/Gateway/GeoIp/Table.antt =====
-- gateway/geoip.go: the table of well-known ranges, and the addresses in it.
use pmi.Base.{ℕ, String, List, [], ◌∷◌}

-- What `net.ParseIP` returns: an address with four bytes, which `To4` gives, or one without.
pub data Ip : Type 0 where
  v4 : ℕ → ℕ → ℕ → ℕ → Ip
  v6 : Ip

pub record GeoIpEntry : Type 0 where
  pub start_ip : Ip
  pub end_ip : Ip
  pub country : String
  pub country_code : String

-- The addresses whose first byte is of the range.
abbrev pub block : ℕ → ℕ → String → String → GeoIpEntry
block first last country country_code = record {
  start_ip = v4 first 0 0 0;
  end_ip = v4 last 255 255 255;
  country = country;
  country_code = country_code;
}

abbrev pub entries4 : List GeoIpEntry
entries4 =
    block 1 1 "Australia" "AU"
    ∷ block 3 3 "United States" "US"
    ∷ block 8 8 "United States" "US"
    ∷ block 13 13 "United States" "US"
    ∷ block 18 18 "United States" "US"
    ∷ block 23 23 "United States" "US"
    ∷ block 24 24 "United States" "US"
    ∷ block 34 35 "United States" "US"
    ∷ block 44 44 "United States" "US"
    ∷ block 50 50 "United States" "US"
    ∷ block 51 51 "United Kingdom" "GB"
    ∷ block 52 52 "United States" "US"
    ∷ block 54 54 "United States" "US"
    ∷ block 58 61 "Asia Pacific" "AP"
    ∷ block 62 62 "Europe" "EU"
    ∷ block 77 95 "Europe" "EU"
    ∷ block 96 96 "United States" "US"
    ∷ block 98 98 "United States" "US"
    ∷ block 100 100 "United States" "US"
    ∷ block 101 103 "Asia Pacific" "AP"
    ∷ block 104 104 "United States" "US"
    ∷ block 106 106 "China" "CN"
    ∷ block 108 108 "United States" "US"
    ∷ block 109 109 "Europe" "EU"
    ∷ block 110 126 "Asia Pacific" "AP"
    ∷ block 128 132 "United States" "US"
    ∷ block 134 139 "United States" "US"
    ∷ block 140 140 "United States" "US"
    ∷ block 141 141 "Europe" "EU"
    ∷ block 142 142 "United States" "US"
    ∷ block 143 143 "United States" "US"
    ∷ block 144 144 "United States" "US"
    ∷ block 145 145 "Europe" "EU"
    ∷ block 146 146 "United States" "US"
    ∷ block 147 147 "United States" "US"
    ∷ block 148 148 "United States" "US"
    ∷ block 149 149 "United States" "US"
    ∷ block 150 150 "Asia Pacific" "AP"
    ∷ block 151 151 "Europe" "EU"
    ∷ block 152 152 "United States" "US"
    ∷ block 153 153 "Asia Pacific" "AP"
    ∷ block 154 154 "Africa" "AF"
    ∷ block 155 155 "United States" "US"
    ∷ block 156 156 "United States" "US"
    ∷ block 157 157 "Asia Pacific" "AP"
    ∷ block 158 158 "United States" "US"
    ∷ block 159 159 "United States" "US"
    ∷ block 160 164 "Asia Pacific" "AP"
    ∷ block 165 166 "United States" "US"
    ∷ block 167 167 "United States" "US"
    ∷ block 168 168 "United States" "US"
    ∷ block 169 169 "United States" "US"
    ∷ block 170 170 "United States" "US"
    ∷ block 171 171 "Asia Pacific" "AP"
    ∷ block 172 172 "United States" "US"
    ∷ block 173 174 "United States" "US"
    ∷ block 175 175 "Asia Pacific" "AP"
    ∷ block 176 176 "Europe" "EU"
    ∷ block 177 177 "Latin America" "LA"
    ∷ block 178 178 "Europe" "EU"
    ∷ block 179 179 "Latin America" "LA"
    ∷ block 180 180 "Asia Pacific" "AP"
    ∷ block 181 181 "Latin America" "LA"
    ∷ block 182 182 "Asia Pacific" "AP"
    ∷ block 183 183 "Asia Pacific" "AP"
    ∷ block 184 184 "United States" "US"
    ∷ block 185 185 "Europe" "EU"
    ∷ block 186 186 "Latin America" "LA"
    ∷ block 187 187 "Latin America" "LA"
    ∷ block 188 188 "Europe" "EU"
    ∷ block 189 189 "Latin America" "LA"
    ∷ block 190 190 "Latin America" "LA"
    ∷ block 191 191 "Latin America" "LA"
    ∷ block 192 192 "United States" "US"
    ∷ block 193 195 "Europe" "EU"
    ∷ block 196 196 "Africa" "AF"
    ∷ block 197 197 "Africa" "AF"
    ∷ block 198 198 "United States" "US"
    ∷ block 199 199 "United States" "US"
    ∷ block 200 201 "Latin America" "LA"
    ∷ block 202 203 "Asia Pacific" "AP"
    ∷ block 204 209 "United States" "US"
    ∷ block 210 210 "Asia Pacific" "AP"
    ∷ block 211 211 "Asia Pacific" "AP"
    ∷ block 212 212 "Europe" "EU"
    ∷ block 213 213 "Europe" "EU"
    ∷ block 214 215 "United States" "US"
    ∷ block 216 216 "United States" "US"
    ∷ block 217 217 "Europe" "EU"
    ∷ block 218 218 "Asia Pacific" "AP"
    ∷ block 219 219 "Asia Pacific" "AP"
    ∷ block 220 220 "Asia Pacific" "AP"
    ∷ block 221 221 "Asia Pacific" "AP"
    ∷ block 222 223 "Asia Pacific" "AP"
    ∷ block 224 255 "Reserved" "XX"
    ∷ []
